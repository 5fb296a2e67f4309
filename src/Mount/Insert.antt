-- ===== src/Mount/Insert.antt =====
-- The part of mount_store.rs that copies a tree of the content store into the inodes of a mount.
use cultivate.Common.{
  ℕ, zero, suc, Bool, List, [], ◌∷◌, Bytes, length, abort, pure, ◌>>=◌, ◌>>◌, unwrap,
}
use cultivate.BTreeMap
use cultivate.Object.{ObjectId, TreeEntry, file, tree_id, symlink_id, conflict_id}
use cultivate.Store.{Store, get_file, get_symlink, get_tree}
use cultivate.Inode.Clock.{SystemTime}
use cultivate.Inode.{Inode, FileKind, set_hash}
use cultivate.Mount.{
  M, DirectoryDescriptor, allocate_inode, set_inode, set_directory_content, new_node,
}

-- the names "." and ".."
abbrev pub dot : Bytes
dot = b'.' ∷ []

abbrev pub dot_dot : Bytes
dot_dot = b'.' ∷ b'.' ∷ []

module _ (now : ℕ → SystemTime) (store : Store) where
  unfoldable pub insert_file : ObjectId → Bool → Inode → M (Unit {0})
  insert_file hash executable inode = do
    f ← unwrap (get_file hash store)
    attrs ← new_node now inode FileKind.file (length f.content)
    set_inode (set_hash hash attrs)

  unfoldable pub insert_symlink : ObjectId → Inode → M (Unit {0})
  insert_symlink hash inode = do
    l ← unwrap (get_symlink hash store)
    attrs ← new_node now inode FileKind.symlink (length l.target)
    set_inode (set_hash hash attrs)

  -- The loop over the entries of a tree; `insert_subtree` is the recursive call. It returns the
  -- descriptor that it fills.
  unfoldable pub insert_entries :
      (ObjectId → Inode → M (Unit {0}))
      → List (Bytes × TreeEntry)
      → DirectoryDescriptor
      → M DirectoryDescriptor
  insert_entries insert_subtree [] entries = pure entries
  insert_entries insert_subtree ((name, file id executable) ∷ rest) entries = do
    new_inode ← allocate_inode
    insert_file id executable new_inode
    insert_entries insert_subtree rest (BTreeMap.insert name (new_inode, FileKind.file) entries)
  insert_entries insert_subtree ((name, tree_id id) ∷ rest) entries = do
    new_inode ← allocate_inode
    insert_subtree id new_inode
    insert_entries insert_subtree rest
        (BTreeMap.insert name (new_inode, FileKind.directory) entries)
  insert_entries insert_subtree ((name, symlink_id id) ∷ rest) entries = do
    new_inode ← allocate_inode
    insert_symlink id new_inode
    insert_entries insert_subtree rest (BTreeMap.insert name (new_inode, FileKind.symlink) entries)
  insert_entries insert_subtree ((name, conflict_id id) ∷ rest) entries = do allocate_inode; abort

  -- The recursion follows the ids of subtrees in the store; `fuel` bounds how deep it goes. The
  -- thread fails where the fuel ends, as it does where its stack ends.
  unfoldable pub insert_tree : ℕ → ObjectId → Inode → M (Unit {0})
  insert_tree zero hash inode = abort
  insert_tree (suc fuel) hash inode = do
    tree ← unwrap (get_tree hash store)
    attrs ← new_node now inode FileKind.directory 0
    entries ←
        insert_entries (insert_tree fuel) tree.entries
          (BTreeMap.insert dot (inode, FileKind.directory) [])
    set_inode attrs
    set_directory_content inode entries

  unfoldable pub set_root_tree : ℕ → ObjectId → M (Unit {0})
  set_root_tree fuel hash = do
    -- burn an inode
    allocate_inode
    insert_tree fuel hash 1
