-- ===== src/Fs/Storing/Handlers.antt =====
-- fs.rs: the handlers that write only add to the content store.
use cultivate.Common.{ℕ, Option, none, some, Bytes, bytes_key, modify, ℤ, pos, negsuc}
use cultivate.HashMap
use cultivate.Daemon.Grows.{Within-refl, insert-Within}
use cultivate.ContentHash.{Blake3}
use cultivate.Object.{ObjectId, File, Symlink}
use cultivate.Inode.Clock.{SystemTime}
use cultivate.Inode.{Inode, FileKind, InodeAttributes}
use cultivate.Fs.{Request}
use cultivate.Fs.Handle.{allocate_next_file_handle, fetch_add_file_handle}
use cultivate.Fs.Node.{insert_link}
use cultivate.Fs.Open.{access_mode, open_node, open_file, opendir, release, release_found}
use cultivate.Fs.Content.{non_negative, base_file, write_node, write}
use cultivate.Fs.Create.{symlink, mkdir, mknod}
use cultivate.Fs.Rename.{
  refuse_exchange, check_empty, require_replaceable, require_movable, drop_node, drop_link,
  unlink_existing, move_entry, stamp, point_up, rename,
}
use cultivate.Fs.Storing.{
  Adds-refl, Adding, Adding-pure, Adding-throw, Adding-abort, Adding-modify, adding, adding_nodes,
  set_inode-Adding,
}

fetch_add-Adding : Adding fetch_add_file_handle
unfolding fetch_add_file_handle
fetch_add-Adding = record { at = λ s. Adds-refl s.store }

access_mode-Adding : (exec flags : ℕ) → Adding (access_mode exec flags)
unfolding access_mode
access_mode-Adding exec flags = search adding

open_node-Adding : (req : Request) (i : Inode) (w : _) → Adding (open_node req i w)
unfolding open_node allocate_next_file_handle
open_node-Adding req i w = search (adding, adding_nodes, fetch_add-Adding) depth 20

pub open_file-Adding : (req : Request) (i : Inode) (flags : ℕ) → Adding (open_file req i flags)
unfolding open_file
open_file-Adding req i flags = search (adding, access_mode-Adding, open_node-Adding)

pub opendir-Adding : (req : Request) (i : Inode) (flags : ℕ) → Adding (opendir req i flags)
unfolding opendir
opendir-Adding req i flags = search (adding, access_mode-Adding, open_node-Adding)

release_found-Adding : (o : Option InodeAttributes) → Adding (release_found o)
release_found-Adding none = Adding-pure tt
release_found-Adding (some a) = set_inode-Adding _

pub release-Adding : (i : Inode) → Adding (release i)
unfolding release
release-Adding i = search (adding, adding_nodes, release_found-Adding)

adds_file-Adding :
    (h : ObjectId) (f : File)
    → Adding (
        modify
          (λ s. record s { store = record s.store { files = HashMap.insert h f s.store.files } }))
adds_file-Adding h f = Adding-modify _ λ s. record {
  files = insert-Within h f s.store.files;
  symlinks = Within-refl s.store.symlinks;
  trees = Within-refl s.store.trees;
  commits = Within-refl s.store.commits;
}

adds_symlink-Adding :
    (h : ObjectId) (l : Symlink)
    → Adding (
        modify (λ s. record s {
          store = record s.store { symlinks = HashMap.insert h l s.store.symlinks };
        }))
adds_symlink-Adding h l = Adding-modify _ λ s. record {
  files = Within-refl s.store.files;
  symlinks = insert-Within h l s.store.symlinks;
  trees = Within-refl s.store.trees;
  commits = Within-refl s.store.commits;
}

module _ (now : ℕ → SystemTime) where
  insert_link-Adding :
      (req : Request) (i : Inode) (name : Bytes) (j : Inode) (kind : FileKind)
      → Adding (insert_link now req i name j kind)
  unfolding insert_link
  insert_link-Adding req i name j kind = search (adding, adding_nodes) depth 20

  pub mkdir-Adding :
      (req : Request) (i : Inode) (name : Bytes) (mode : ℕ) → Adding (mkdir now req i name mode)
  unfolding mkdir
  mkdir-Adding req i name mode = search (adding, adding_nodes) depth 30

  pub mknod-Adding :
      (req : Request) (i : Inode) (name : Bytes) (mode : ℕ) → Adding (mknod now req i name mode)
  unfolding mknod
  mknod-Adding req i name mode = search (adding, adding_nodes) depth 30

  refuse_exchange-Adding : (flags : ℕ) → Adding (refuse_exchange flags)
  unfolding refuse_exchange
  refuse_exchange-Adding flags = search adding

  check_empty-Adding : (o : Option InodeAttributes) → Adding (check_empty o)
  check_empty-Adding none = Adding-pure tt
  check_empty-Adding (some a) = search (adding, adding_nodes)

  require_replaceable-Adding : (i : Inode) (name : Bytes) → Adding (require_replaceable i name)
  unfolding require_replaceable
  require_replaceable-Adding i name = search (adding, adding_nodes, check_empty-Adding)

  require_movable-Adding :
      (req : Request) (i j : Inode) (a : InodeAttributes) → Adding (require_movable req i j a)
  unfolding require_movable
  require_movable-Adding req i j a = search (adding, adding_nodes)

  drop_node-Adding : (a : InodeAttributes) → Adding (drop_node now a)
  drop_node-Adding a = search (adding, adding_nodes)

  drop_link-Adding :
      (i : Inode) (name : Bytes) (o : Option InodeAttributes) → Adding (drop_link now i name o)
  drop_link-Adding i name none = Adding-pure tt
  drop_link-Adding i name (some a) = search (adding, adding_nodes, drop_node-Adding)

  unlink_existing-Adding : (i : Inode) (name : Bytes) → Adding (unlink_existing now i name)
  unfolding unlink_existing
  unlink_existing-Adding i name = search (adding, adding_nodes, drop_link-Adding)

  move_entry-Adding :
      (i : Inode) (name : Bytes) (j : Inode) (new_name : Bytes) (a : InodeAttributes)
      → Adding (move_entry now i name j new_name a)
  unfolding move_entry
  move_entry-Adding i name j new_name a = search (adding, adding_nodes) depth 12

  stamp-Adding : (a b c : InodeAttributes) → Adding (stamp now a b c)
  unfolding stamp
  stamp-Adding a b c = search (adding, adding_nodes) depth 20

  point_up-Adding : (i : Inode) (a : InodeAttributes) → Adding (point_up now i a)
  unfolding point_up
  point_up-Adding i a = search (adding, adding_nodes)

  pub rename-Adding :
      (req : Request) (i : Inode) (name : Bytes) (j : Inode) (new_name : Bytes) (flags : ℕ)
      → Adding (rename now req i name j new_name flags)
  unfolding rename
  rename-Adding req i name j new_name flags =
      search
        (
          adding, adding_nodes, refuse_exchange-Adding, require_replaceable-Adding,
          require_movable-Adding, unlink_existing-Adding, move_entry-Adding, stamp-Adding,
          point_up-Adding,
        )
        depth 40

  module _ (b : Blake3) where
    pub symlink-Adding :
        (req : Request) (i : Inode) (name target : Bytes) → Adding (symlink b now req i name target)
    unfolding symlink
    symlink-Adding req i name target =
        search (adding, adding_nodes, insert_link-Adding, adds_symlink-Adding) depth 40

    non_negative-Adding : (z : ℤ) → Adding (non_negative z)
    non_negative-Adding (pos n) = Adding-pure n
    non_negative-Adding (negsuc n) = Adding-abort

    base_file-Adding : (o : Option ObjectId) → Adding (base_file o)
    base_file-Adding none = Adding-pure _
    base_file-Adding (some h) = search adding

    write_node-Adding :
        (o : Option InodeAttributes) (offset : ℕ) (bytes : Bytes)
        → Adding (write_node b now o offset bytes)
    unfolding write_node
    write_node-Adding none offset bytes = Adding-throw _
    write_node-Adding (some a) offset bytes =
        search (adding, adding_nodes, base_file-Adding, adds_file-Adding) depth 40

    pub write-Adding :
        (i : Inode) (fh : ℕ) (offset : ℤ) (bytes : Bytes) → Adding (write b now i fh offset bytes)
    unfolding write
    write-Adding i fh offset bytes = search (adding, non_negative-Adding, write_node-Adding)
