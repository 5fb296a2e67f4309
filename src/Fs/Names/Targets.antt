-- ===== src/Fs/Names/Targets.antt =====
-- fs.rs: the target of a new link, as `readlink` gives it back.
use cultivate.Common.{
  unwrap, ℕ, ◌≡◌, ◌∙◌, refl, ap, true, none, some, Bytes, bytes_key, bytes_eq_iff, nat_key,
  nat_eq_iff, ok, ◌>>=◌, is_utf8,
}
use cultivate.HashMap
use cultivate.BTreeMap
use cultivate.ContentHash.{Blake3}
use cultivate.Object.{ObjectId, Symlink, empty_symlink, symlink_get_hash}
use cultivate.Object.Encoding.{symlink_get_hash_lem}
use cultivate.Store.{get_symlink}
use cultivate.Inode.Clock.{SystemTime}
use cultivate.Inode.{Inode, FileKind, FileAttr, InodeAttributes, file_attr, set_hash}
use cultivate.Mount
use cultivate.Mount.{DirectoryDescriptor}
use cultivate.Fs.{Fs, Request, on_mount, set_inode}
use cultivate.Fs.Content.{readlink, readlink_node}
use cultivate.Fs.Create.{symlink}
use cultivate.Fs.Valid.{IsValid}
use cultivate.Fs.Valid.Nodes.{Room}
use cultivate.Fs.Names.Calls.{then_ok, no_name}
use cultivate.Fs.Names.States.{touched, stamped, relinked, create_new_node-Born}
use cultivate.Fs.Names.Inserting.{store_link, insert_link_made}
use cultivate.Fs.Names.Linking.{attrs, valid, parent_there, run_up_to_link}

-- A state with a link of this hash in the store, and the inode of the link.
abbrev with_link : ObjectId → Symlink → InodeAttributes → Fs → Fs
with_link hash link a s =
    (set_inode (set_hash hash a) (record s {
      store = record s.store { symlinks = HashMap.insert hash link s.store.symlinks };
    })).1

module _ (b : Blake3) (target : Bytes) (a : InodeAttributes) (hash : ObjectId) (s : Fs)
    (text : is_utf8 target ≡ true)
    (hashed : symlink_get_hash b (record empty_symlink { target = target }) ≡ some hash) where
  store_link-with_link : store_link b target a s ≡ (
    ok (file_attr (set_hash hash a)),
    with_link hash (record empty_symlink { target = target }) a s,
  )
  unfolding set_inode
  store_link-with_link =
      then_ok _ _ _ (rw text refl)
      ∙ then_ok _ _ _ (ap (λ o. unwrap o s) hashed)
      ∙ then_ok _ _ _ refl
      ∙ then_ok _ _ _ refl

readlink-with_link :
    (hash : ObjectId) (link : Symlink) (a : InodeAttributes) (s : Fs)
    → readlink a.inode (with_link hash link a s) ≡ (ok link.target, with_link hash link a s)
unfolding readlink readlink_node on_mount Mount.get_inode get_symlink set_inode Mount.set_inode
    ◌>>=◌
readlink-with_link hash link a s =
    rw ((nat_eq_iff a.inode a.inode).1 refl, (bytes_eq_iff hash hash).1 refl) refl

module _ (b : Blake3) (now : ℕ → SystemTime) (req : Request) (parent : Inode) (name target : Bytes)
    (s : Fs) (v : IsValid s) (room : Room s) where
  -- In a valid state with an inode number left, `symlink` of a free name in a directory, with a target
  -- that is UTF-8, replies an inode, and `readlink` of that inode then gives the target back, and changes
  -- nothing.
  pub readlink-symlink :
      (es : DirectoryDescriptor)
      → s.mount.directories parent ≡ some es
      → BTreeMap.get name es ≡ none
      → is_utf8 target ≡ true
      → (attr : FileAttr) × (t : Fs) × (symlink b now req parent name target s ≡ (ok attr, t))
        × (readlink attr.ino t ≡ (ok target, t))
  unfolding file_attr stamped
  readlink-symlink es listed absent text =
      let (a, here, _) = v.directory parent es listed in
      let (n, t, made) = create_new_node-Born now FileKind.symlink (stamped now a s) in
      let new = attrs b now req parent name target s v room a here n t made in
      let there : t.mount.directories parent ≡ some es =
        ap (λ d. d parent) made.directories ∙ listed in
      let x =
        relinked parent (BTreeMap.insert name (new.inode, FileKind.symlink) es)
          (stamped now (touched now a s) t) in
      (
        _,
        _,
        run_up_to_link b now req parent name target s v room a here n t made
            ∙ then_ok _ _ _ (
                insert_link_made now req parent name new.inode FileKind.symlink t
                  (valid b now req parent name target s v room a here n t made) _ es
                  (no_name es there absent)
                  (parent_there b now req parent name target s v room a here n t made) there)
            ∙ store_link-with_link b target new _ x text (symlink_get_hash_lem b _),
        readlink-with_link _ (record empty_symlink { target = target }) new x,
      )
