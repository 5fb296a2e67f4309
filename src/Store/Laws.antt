-- ===== src/Store/Laws.antt =====
-- store.rs: laws of the content store's reads and writes.
use cultivate.Common.{
  ◌^◌, ◌<◌, ◌≡◌, refl, sym, ◌∙◌, ap, some, length, bytes_eq, bytes_eq_iff, bytes_key, arith, ◌>>=?◌,
  Bool-cases, inl, inr,
}
use mathlib.Core.Option.{some-injective}
use cultivate.HashMap
use cultivate.ContentHash.{Blake3}
use cultivate.ContentHash.Encoding.{encode_string}
use cultivate.Object.{
  ObjectId, Tree, File, Symlink, empty_tree, tree_get_hash, file_get_hash, symlink_get_hash,
}
use cultivate.Object.Encoding.{
  encode_tree, HashableTree, TreeFits, tree_get_hash_lem, file_get_hash_lem, encode_tree_injective,
  encode_string_injective,
}
use cultivate.Store.{Store, new, write_tree, write_file, get_tree, get_file, get_symlink}

module _ (b : Blake3) where
  -- Every object lies under its own hash.
  pub record IsAddressed (s : Store) : Type 0 where
    pub trees : (id : ObjectId) (t : Tree) → get_tree id s ≡ some t → tree_get_hash b t ≡ some id
    pub files : (id : ObjectId) (f : File) → get_file id s ≡ some f → file_get_hash b f ≡ some id
    pub symlinks :
        (id : ObjectId) (l : Symlink) → get_symlink id s ≡ some l → symlink_get_hash b l ≡ some id

  -- A new store is made without a panic, every object of it lies under its own hash, and the id that
  -- it reports as the empty tree's leads to the empty tree.
  pub new-IsAddressed :
      (s : Store) × (new b ≡ some s)
      × IsAddressed s
      × (get_tree s.empty_tree_id s ≡ some empty_tree)
  unfolding new get_tree get_file get_symlink
  new-IsAddressed =
      let hash = tree_get_hash_lem b empty_tree tt in
      let id = b.hash (encode_tree empty_tree) in
      (
        record {
          commits = HashMap.empty;
          files = HashMap.empty;
          symlinks = HashMap.empty;
          empty_tree_id = id;
          trees = HashMap.insert id empty_tree HashMap.empty;
        },
        rw (hash, ◌>>=?◌),
        record {
          trees = λ k t h. ground (arith, hash, bytes_eq_iff id k);
          files = λ k f h. cc;
          symlinks = λ k l h. cc;
        },
        rw ((bytes_eq_iff id id).1 refl),
      )

  -- What writing the tree `t` to a store gives: the hash of `t`, under which `t` is found.
  pub record TreeWritten (t : Tree) (id : ObjectId) (s' : Store) : Type 0 where
    pub hashed : tree_get_hash b t ≡ some id
    pub found : get_tree id s' ≡ some t
    pub addressed : IsAddressed s'

  -- Writing a tree without conflicts to a store whose objects lie under their hashes gives the hash of
  -- the tree and a store in which the tree is found under it, and whose objects lie under their hashes.
  pub write_tree-TreeWritten :
      (t : Tree) (s : Store)
      → HashableTree t
      → IsAddressed s
      → (r : ObjectId × Store) × (write_tree b t s ≡ some r) × TreeWritten t r.0 r.1
  unfolding write_tree get_tree get_file get_symlink
  write_tree-TreeWritten t s ok inv =
      let hash = tree_get_hash_lem b t ok in
      let id = b.hash (encode_tree t) in
      (
        (id, record s { trees = HashMap.insert id t s.trees }),
        rw (hash, ◌>>=?◌),
        record {
          hashed = hash;
          found = rw ((bytes_eq_iff id id).1 refl);
          addressed = record {
            trees = λ k u h. ground (arith, hash, bytes_eq_iff id k, inv.trees k u);
            files = inv.files;
            symlinks = inv.symlinks;
          };
        },
      )

  -- Writing a tree leaves every tree that was in the store as it was, if all objects lie under their
  -- hashes, sizes fit into 64 bits, and the hash function does not send the two different encodings
  -- to the same hash.
  pub write_tree-kept :
      (t u : Tree) (k : ObjectId) (s : Store)
      → HashableTree t
      → HashableTree u
      → TreeFits t
      → TreeFits u
      → IsAddressed s
      → get_tree k s ≡ some u
      → (b.hash (encode_tree t) ≡ b.hash (encode_tree u) → encode_tree t ≡ encode_tree u)
      → (r : ObjectId × Store) × (write_tree b t s ≡ some r) × (get_tree k r.1 ≡ some u)
  unfolding write_tree get_tree
  write_tree-kept t u k s ht hu ft fu inv h apart =
      let hash = tree_get_hash_lem b t ht in
      let id = b.hash (encode_tree t) in
      (
        (id, record s { trees = HashMap.insert id t s.trees }),
        rw (hash, ◌>>=?◌),
        elim (Bool-cases (bytes_eq id k)) [
          | inl same ↦
              let key = some-injective _ _ (sym (tree_get_hash_lem b u hu) ∙ inv.trees k u h) in
              let one =
                encode_tree_injective t u ft fu (apart ((bytes_eq_iff id k).0 same ∙ sym key)) in
              rw same (ap some one)
          | inr other ↦ rw other h
        ],
      )

  -- The same for a file.
  pub record FileWritten (f : File) (id : ObjectId) (s' : Store) : Type 0 where
    pub hashed : file_get_hash b f ≡ some id
    pub found : get_file id s' ≡ some f
    pub addressed : IsAddressed s'

  -- Writing a file to a store whose objects lie under their hashes gives the hash of the file and a
  -- store in which the file is found under it, and whose objects lie under their hashes.
  pub write_file-FileWritten :
      (f : File) (s : Store)
      → IsAddressed s
      → (r : ObjectId × Store) × (write_file b f s ≡ some r) × FileWritten f r.0 r.1
  unfolding write_file get_tree get_file get_symlink
  write_file-FileWritten f s inv =
      let hash = file_get_hash_lem b f in
      let id = b.hash (encode_string f.content) in
      (
        (id, record s { files = HashMap.insert id f s.files }),
        rw (hash, ◌>>=?◌),
        record {
          hashed = hash;
          found = rw ((bytes_eq_iff id id).1 refl);
          addressed = record {
            trees = inv.trees;
            files = λ k g h. ground (arith, hash, bytes_eq_iff id k, inv.files k g);
            symlinks = inv.symlinks;
          };
        },
      )

  -- Writing a file leaves every file that was in the store as it was, if all objects lie under their
  -- hashes, sizes fit into 64 bits, and the hash function does not send the two different encodings
  -- to the same hash.
  write_file-kept :
      (f g : File) (k : ObjectId) (s : Store)
      → length f.content < 256 ^ 8
      → length g.content < 256 ^ 8
      → IsAddressed s
      → get_file k s ≡ some g
      → (b.hash (encode_string f.content) ≡ b.hash (encode_string g.content)
          → encode_string f.content ≡ encode_string g.content)
      → (r : ObjectId × Store) × (write_file b f s ≡ some r) × (get_file k r.1 ≡ some g)
  unfolding write_file get_file
  write_file-kept f g k s lf lg inv h apart =
      let hash = file_get_hash_lem b f in
      let id = b.hash (encode_string f.content) in
      (
        (id, record s { files = HashMap.insert id f s.files }),
        rw (hash, ◌>>=?◌),
        elim (Bool-cases (bytes_eq id k)) [
          | inl same ↦
              let key = some-injective _ _ (sym (file_get_hash_lem b g) ∙ inv.files k g h) in
              let one =
                encode_string_injective f.content g.content lf lg
                  (apart ((bytes_eq_iff id k).0 same ∙ sym key)) in
              rw same (λ i. some (record { content = one i }))
          | inr other ↦ rw other h
        ],
      )
