-- ===== src/Mount/Depth.antt =====
-- mount_store.rs: `insert_tree` comes to an end.
use cultivate.Common.{
  ◌≡◌, refl, ℕ, zero, suc, ◌+◌, ◌%◌, ◌^◌, ◌≤◌, arith, Bool, Bool-cases, inl, inr, bytes_eq,
  bytes_eq_iff, nat_eq_iff, nat_key, some, List, [], ◌∷◌, Bytes, ok, All, ◌>>=◌, ◌>>◌,
}
use mathlib.Core.Path.{subst}
use cultivate.BTreeMap
use cultivate.Object.{
  ObjectId, TreeEntry, file, tree_id, symlink_id, conflict_id, Tree, File, Symlink,
}
use cultivate.Store.{Store, get_file, get_symlink, get_tree}
use cultivate.Inode.{Inode, FileKind, new_attributes}
use cultivate.Inode.Clock.{SystemTime}
use cultivate.Mount.{
  Mount, M, DirectoryDescriptor, allocate_inode, set_inode, set_directory_content, new_node,
  time_now,
}
use cultivate.Mount.Insert.{dot, insert_file, insert_symlink, insert_entries, insert_tree}

module _ (store : Store) where
  -- What an entry leads to is in the store; a subtree satisfies `Subtree`.
  abbrev pub EntryStored : (ObjectId → Type 0) → Bytes × TreeEntry → Type 0
  EntryStored Subtree (name, file id executable) = (f : File) × (get_file id store ≡ some f)
  EntryStored Subtree (name, tree_id id) = Subtree id
  EntryStored Subtree (name, symlink_id id) = (l : Symlink) × (get_symlink id store ≡ some l)
  EntryStored Subtree (name, conflict_id id) = ⊥

  -- The tree, its files, its symlinks and its subtrees are all in the store, without a conflict, and
  -- no path in it goes through more than `depth` trees.
  unfoldable pub HasDepth : ℕ → ObjectId → Type 0
  HasDepth zero id = ⊥
  HasDepth (suc depth) id =
      (tree : Tree) × (get_tree id store ≡ some tree)
      × All (EntryStored (HasDepth depth)) tree.entries

module _ (now : ℕ → SystemTime) (store : Store) where
  insert_file_lem :
      (id : ObjectId) (x : Bool) (inode : Inode) (m : Mount) (f : File)
      → get_file id store ≡ some f
      → insert_file now store id x inode m ≡ (ok tt, (insert_file now store id x inode m).1)
  unfolding insert_file new_node time_now new_attributes set_inode ◌>>=◌
  insert_file_lem id x inode m f found = rw found refl

  insert_symlink_lem :
      (id : ObjectId) (inode : Inode) (m : Mount) (l : Symlink)
      → get_symlink id store ≡ some l
      → insert_symlink now store id inode m ≡ (ok tt, (insert_symlink now store id inode m).1)
  unfolding insert_symlink new_node time_now new_attributes set_inode ◌>>=◌
  insert_symlink_lem id inode m l found = rw found refl

  -- Both calls end well, in the same state.
  abbrev Agree : {A : Type 0} → M A → M A → Mount → Type 0
  Agree {A} f g m = (a : A) × (t : Mount) × (f m ≡ (ok a, t)) × (g m ≡ (ok a, t))

  -- The name is one of the directory's.
  abbrev pub Lists : DirectoryDescriptor → Bytes → Type 0
  Lists d name = (v : Inode × FileKind) × (BTreeMap.get name d ≡ some v)

  Lists-insert :
      (name k : Bytes) (v : Inode × FileKind) (d : DirectoryDescriptor)
      → Lists d k
      → Lists (BTreeMap.insert name v d) k
  Lists-insert name k v d (w, found) = elim (Bool-cases (bytes_eq name k)) [
    | inl same ↦ (v, rw (BTreeMap.get-insert name k v d, same) refl)
    | inr other ↦ (w, rw (BTreeMap.get-insert name k v d, other) found)
  ]

  Lists-inserted :
      (name : Bytes) (v : Inode × FileKind) (d : DirectoryDescriptor)
      → Lists (BTreeMap.insert name v d) name
  Lists-inserted name v d =
      (v, rw (BTreeMap.get-insert name name v d, (bytes_eq_iff name name).1 refl) refl)

  -- Both loops end well, in the same state and with the same directory, which has the names that it
  -- had and those of the entries.
  abbrev AgreeOn :
      M DirectoryDescriptor
      → M DirectoryDescriptor
      → List (Bytes × TreeEntry)
      → DirectoryDescriptor
      → Mount
      → Type 0
  AgreeOn f g es d m =
      (r : DirectoryDescriptor) × (t : Mount) × (f m ≡ (ok r, t))
      × (g m ≡ (ok r, t))
      × ((k : Bytes) → Lists d k → Lists r k)
      × All (λ (e : Bytes × TreeEntry). Lists r e.0) es

  >>-AgreeOn :
      (f g : M (Unit {0})) (after_f after_g : M DirectoryDescriptor) (name : Bytes) (e : TreeEntry)
      (es : List (Bytes × TreeEntry)) (v : Inode × FileKind) (d : DirectoryDescriptor) (m t : Mount)
      (a : Unit {0})
      → f m ≡ (ok a, t)
      → g m ≡ (ok a, t)
      → AgreeOn after_f after_g es (BTreeMap.insert name v d) t
      → AgreeOn (f >> after_f) (g >> after_g) ((name, e) ∷ es) d m
  unfolding ◌>>=◌
  >>-AgreeOn f g after_f after_g name e es v d m t a by_f by_g (r, u, rest_f, rest_g, keeps, all) =
      (
        r,
        u,
        rw by_f rest_f,
        rw by_g rest_g,
        λ k had. keeps k (Lists-insert name k v d had),
        (keeps name (Lists-inserted name v d), all),
      )

  insert_entries-AgreeOn :
      (P : ObjectId → Type 0) (f g : ObjectId → Inode → M (Unit {0}))
      → ((id : ObjectId) (inode : Inode) (m : Mount) → P id → Agree (f id inode) (g id inode) m)
      → (es : List (Bytes × TreeEntry)) (d : DirectoryDescriptor) (m : Mount)
      → All (EntryStored store P) es
      → AgreeOn (insert_entries now store f es d) (insert_entries now store g es d) es d m
  unfolding insert_entries allocate_inode ◌>>=◌
  insert_entries-AgreeOn P f g agree [] d m stored = (d, m, refl, refl, λ k had. had, tt)
  insert_entries-AgreeOn P f g agree ((name, file id x) ∷ es) d m ((c, found), rest) =
      let m₁ = record m { next_inode = (m.next_inode + 1) % 2 ^ 64 } in
      let done = insert_file_lem id x m.next_inode m₁ c found in
      let call = insert_file now store id x m.next_inode in
      let v : Inode × FileKind = (m.next_inode, FileKind.file) in
      let d₁ = BTreeMap.insert name v d in
      >>-AgreeOn call call (insert_entries now store f es d₁) (insert_entries now store g es d₁)
        name (file id x) es v d m₁ (call m₁).1 tt done done
        (insert_entries-AgreeOn P f g agree es d₁ (call m₁).1 rest)
  insert_entries-AgreeOn P f g agree ((name, tree_id id) ∷ es) d m (sub, rest) =
      let m₁ = record m { next_inode = (m.next_inode + 1) % 2 ^ 64 } in
      let (u, t, by_f, by_g) = agree id m.next_inode m₁ sub in
      let v : Inode × FileKind = (m.next_inode, FileKind.directory) in
      let d₁ = BTreeMap.insert name v d in
      >>-AgreeOn (f id m.next_inode) (g id m.next_inode) (insert_entries now store f es d₁)
        (insert_entries now store g es d₁) name (tree_id id) es v d m₁ t u by_f by_g
        (insert_entries-AgreeOn P f g agree es d₁ t rest)
  insert_entries-AgreeOn P f g agree ((name, symlink_id id) ∷ es) d m ((c, found), rest) =
      let m₁ = record m { next_inode = (m.next_inode + 1) % 2 ^ 64 } in
      let done = insert_symlink_lem id m.next_inode m₁ c found in
      let call = insert_symlink now store id m.next_inode in
      let v : Inode × FileKind = (m.next_inode, FileKind.symlink) in
      let d₁ = BTreeMap.insert name v d in
      >>-AgreeOn call call (insert_entries now store f es d₁) (insert_entries now store g es d₁)
        name (symlink_id id) es v d m₁ (call m₁).1 tt done done
        (insert_entries-AgreeOn P f g agree es d₁ (call m₁).1 rest)
  insert_entries-AgreeOn P f g agree ((name, conflict_id id) ∷ es) d m (bad, rest) = absurd bad

  -- The directory at the inode lists "." and the tree's names.
  abbrev pub ListsTree : Tree → Inode → Mount → Type 0
  ListsTree tree inode t =
      (r : DirectoryDescriptor) × (t.directories inode ≡ some r)
      × Lists r dot
      × All (λ (e : Bytes × TreeEntry). Lists r e.0) tree.entries

  one_level :
      (depth fuel : ℕ) (id : ObjectId) (tree : Tree) (inode : Inode) (m : Mount)
      → ((id : ObjectId) (inode : Inode) (m : Mount)
          → HasDepth store depth id
          → Agree (insert_tree now store depth id inode) (insert_tree now store fuel id inode) m)
      → get_tree id store ≡ some tree
      → All (EntryStored store (HasDepth store depth)) tree.entries
      → (t : Mount) × (insert_tree now store (suc depth) id inode m ≡ (ok tt, t))
        × (insert_tree now store (suc fuel) id inode m ≡ (ok tt, t))
        × ListsTree tree inode t
  unfolding insert_tree ◌>>=◌ new_node time_now new_attributes set_inode set_directory_content
  one_level depth fuel id tree inode m agree found stored =
      let m₁ = record m { readings = m.readings + 1 + 1 + 1 } in
      let d₁ = BTreeMap.insert dot (inode, FileKind.directory) [] in
      let (r, t, by_depth, by_fuel, keeps, all) =
        insert_entries-AgreeOn (HasDepth store depth) (insert_tree now store depth)
          (insert_tree now store fuel) agree tree.entries d₁ m₁ stored in
      (
        (insert_tree now store (suc depth) id inode m).1,
        rw (found, by_depth) refl,
        rw (found, by_depth, by_fuel) refl,
        (
          r,
          rw (found, by_depth, (nat_eq_iff inode inode).1 refl) refl,
          keeps dot (Lists-inserted dot (inode, FileKind.directory) []),
          all,
        ),
      )

  insert_tree-Agree :
      (depth fuel : ℕ) (id : ObjectId) (inode : Inode) (m : Mount)
      → depth ≤ fuel
      → HasDepth store depth id
      → Agree (insert_tree now store depth id inode) (insert_tree now store fuel id inode) m
  unfolding HasDepth
  insert_tree-Agree zero fuel id inode m enough bad = absurd bad
  insert_tree-Agree (suc depth) zero id inode m enough stored = absurd (omega arith)
  insert_tree-Agree (suc depth) (suc fuel) id inode m enough (tree, found, stored) =
      let at_most : depth ≤ fuel = omega arith in
      let (t, by_depth, by_fuel, lists) =
        one_level depth fuel id tree inode m
          (λ id inode m sub. insert_tree-Agree depth fuel id inode m at_most sub) found stored in
      (tt, t, by_depth, by_fuel)

  -- Inserting a tree of the store into a mount ends well with as much fuel as the tree is deep, in
  -- the same state as with any more fuel, if the tree and all that its entries lead to, at every
  -- depth, are in the store, and no entry is a conflict; the directory at the inode then lists "."
  -- and the names of the tree's entries.
  pub insert_tree_ends :
      (depth fuel : ℕ) (id : ObjectId) (tree : Tree) (inode : Inode) (m : Mount)
      → depth ≤ fuel
      → HasDepth store depth id
      → get_tree id store ≡ some tree
      → (t : Mount) × (insert_tree now store depth id inode m ≡ (ok tt, t))
        × (insert_tree now store fuel id inode m ≡ (ok tt, t))
        × ListsTree tree inode t
  unfolding HasDepth
  insert_tree_ends zero fuel id tree inode m enough bad found = absurd bad
  insert_tree_ends (suc depth) zero id tree inode m enough stored found = absurd (omega arith)
  insert_tree_ends (suc depth) (suc fuel) id tree inode m enough (tree', found', stored) found =
      let at_most : depth ≤ fuel = omega arith in
      let same : tree' ≡ tree = cc in
      one_level depth fuel id tree inode m
        (λ id inode m sub. insert_tree-Agree depth fuel id inode m at_most sub) found
        (subst (λ (x : Tree). All (EntryStored store (HasDepth store depth)) x.entries) same stored)
