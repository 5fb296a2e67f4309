-- ===== src/Fs/Listing.antt =====
-- fs.rs: the handlers that look things up, `lookup`, `readdir`, `getattr`, `setattr`, `access` and
-- `init`, and the handlers `rmdir`, `link` and `setxattr`, which are not written and panic.
pub mod Resume
use cultivate.Common.{
  ℕ, ◌+◌, ◌≡◌, Bool, true, false, Option, none, some, List, [], ◌∷◌, ◌++◌, Bytes, length, drop, ltb,
  if◌then◌else◌, ok, pure, throw, abort, attempt, ◌>>=◌, ◌>>◌, gets, ℤ, pos, negsuc,
}
use cultivate.BTreeMap
use cultivate.Errno.{enametoolong}
use cultivate.Inode.Clock.{SystemTime}
use cultivate.Inode.{Inode, FileKind, FileType, FileAttr, file_attr, file_type}
use cultivate.Mount.Insert.{set_root_tree}
use cultivate.Mount.{DirectoryDescriptor}
use cultivate.Fs.{Fs, F, on_mount, get_inode, get_directory_content, lookup_name}

unfoldable pub lookup : Inode → Bytes → F FileAttr
unfolding lookup_name file_attr
lookup parent name =
    if ltb 140 (length name)
    then throw enametoolong
    else do attrs ← lookup_name parent name; pure (file_attr attrs)

unfoldable pub getattr : Inode → F FileAttr
unfolding get_inode file_attr
getattr inode = do attrs ← get_inode inode; pure (file_attr attrs)

-- It changes nothing: the arguments with the new attributes are not read.
unfoldable pub setattr : Inode → F FileAttr
unfolding get_inode file_attr
setattr inode = do get_inode inode; attrs ← get_inode inode; pure (file_attr attrs)

unfoldable pub access : Inode → ℕ → F (Unit {0})
access inode mask = pure tt

unfoldable pub rmdir : Inode → Bytes → F (Unit {0})
rmdir parent name = abort

unfoldable pub link : Inode → Inode → Bytes → F FileAttr
link inode new_parent new_name = abort

unfoldable pub setxattr : Inode → Bytes → Bytes → F (Unit {0})
setxattr inode key value = abort

abbrev pub fuse_root_id : Inode
fuse_root_id = 1

unfoldable pub init : (ℕ → SystemTime) → ℕ → F (Unit {0})
unfolding get_inode on_mount set_root_tree
init now fuel = do
  root ← attempt (get_inode fuse_root_id)
  store ← gets (λ s. s.store)
  elim root [
    | none ↦ on_mount (set_root_tree now store fuel store.empty_tree_id)
    | some attrs ↦ pure tt
  ]

-- What `reply.add` is given.
pub record DirEntry : Type 0 where
  pub ino : Inode
  pub offset : ℕ
  pub kind : FileType
  pub name : Bytes

-- fuser's `ReplyDirectory`: `add` says whether the buffer is full, and then has not added the entry.
pub record ReplyDirectory : Type 1 where
  pub Buffer : Type 0
  pub add : Buffer → DirEntry → Buffer × Bool
  pub added : Buffer → List DirEntry
  pub add-fits :
      (r : Buffer) (e : DirEntry) → (add r e).1 ≡ false → added (add r e).0 ≡ added r ++ e ∷ []
  pub add-full : (r : Buffer) (e : DirEntry) → (add r e).1 ≡ true → added (add r e).0 ≡ added r

module _ (d : ReplyDirectory) where
  -- the loop, from an index of the entries that are left
  unfoldable pub fill : ℕ → ℕ → DirectoryDescriptor → d.Buffer → d.Buffer
  unfolding file_type
  fill offset index [] reply = reply
  fill offset index ((name, (inode, kind)) ∷ rest) reply =
      let (reply', buffer_full) =
        d.add reply (record {
          ino = inode;
          offset = offset + index + 1;
          kind = file_type kind;
          name = name;
        }) in
      let more = fill offset (index + 1) rest reply' in if buffer_full then reply' else more

  unfoldable pub readdir : Inode → ℤ → d.Buffer → F d.Buffer
  unfolding fill get_directory_content
  readdir inode (pos offset) reply = do
    entries ← get_directory_content inode
    pure (fill offset 0 (drop offset entries) reply)
  readdir inode (negsuc n) reply = abort
