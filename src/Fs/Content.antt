-- ===== src/Fs/Content.antt =====
-- fs.rs: `read`, `write` and `readlink`.
pub mod Cursor
pub mod Laws
use cultivate.Common.{
  Run, ℕ, ◌+◌, ◌-◌, ◌%◌, ◌^◌, min, Bool, Option, none, some, List, [], ◌++◌, Bytes, bytes_key,
  length, take, drop, replicate, ltb, leb, if◌then◌else◌, pure, throw, abort, unwrap, gets, modify,
  ◌>>=◌, ◌>>◌, ℤ, pos, negsuc,
}
use cultivate.HashMap
use cultivate.Errno.{Errno, eacces, enoent, ebadf}
use cultivate.ContentHash.{Blake3}
use cultivate.Object.{ObjectId, File, empty_file, file_get_hash}
use cultivate.Store.{get_symlink}
use cultivate.Inode.Clock.{SystemTime}
use cultivate.Inode.{
  Inode, InodeAttributes, set_hash, set_size, update_last_modified, update_last_metadata_changed,
}
use cultivate.Mount
use cultivate.Fs.{Fs, F, on_mount, set_inode}
use cultivate.Fs.Handle.{check_file_handle_read, check_file_handle_write}

-- `assert!(offset >= 0)`
abbrev pub non_negative : {S : Type 0} → ℤ → Run S Errno ℕ
non_negative (pos n) = pure n
non_negative (negsuc n) = abort

-- `if !check { reply.error(libc::EACCES); return; }`
abbrev pub require : {S : Type 0} → Bool → Run S Errno (Unit {0})
require allowed = if allowed then pure tt else throw eacces

-- `min(size, file_size.saturating_sub(offset as u64) as u32)`
unfoldable pub read_length : ℕ → ℕ → ℕ → ℕ
read_length file_size offset size = min size ((file_size - offset) % 2 ^ 32)

-- The buffer of `read_size` zeros whose part from `offset` on `read_exact` fills with the first bytes
-- of the file; `none` where the slice is out of range or the file too short.
unfoldable pub read_buffer : Bytes → ℕ → ℕ → Option Bytes
read_buffer content offset read_size =
    if leb offset read_size
    then if leb (read_size - offset) (length content)
      then some (replicate offset 0 ++ take (read_size - offset) content)
      else none
    else none

-- The answer for the attributes that `get_inode` found.
unfoldable pub read_node : Option InodeAttributes → ℕ → ℕ → F Bytes
unfolding read_length read_buffer
read_node none offset size = throw enoent
read_node (some node) offset size = do
  hash ← unwrap node.hash
  files ← gets (λ s. s.store.files)
  raw_file ← unwrap (files hash)
  unwrap (read_buffer raw_file.content offset (read_length (length raw_file.content) offset size))

-- What runs under the guard of the store's mutex of files.
abbrev pub read_locked : Inode → ℕ → ℕ → F Bytes
read_locked inode offset size = do
  node ← on_mount (Mount.get_inode inode)
  read_node node offset size

-- The reply, and what becomes of the file system's own state; `Session` takes the mutex.
unfoldable pub read : Inode → ℕ → ℤ → ℕ → F Bytes
unfolding read_node on_mount Mount.get_inode
read inode fh offset size = do
  offset' ← non_negative offset
  require (check_file_handle_read fh)
  read_locked inode offset' size

-- `write_all` at a position of a `Cursor<Vec<u8>>`: zeros up to the position, then the data over
-- what stands there.
unfoldable pub cursor_write : Bytes → ℕ → Bytes → Bytes
cursor_write content position bytes =
    take position content
    ++ (replicate (position - length content) 0
        ++ (bytes ++ drop (position + length bytes) content))

-- `if data.len() + offset > size { set_size }`
unfoldable pub grown : InodeAttributes → ℕ → InodeAttributes
grown attrs end = if ltb attrs.size end then set_size end attrs else attrs

-- the file that a write starts from
abbrev pub base_file : Option ObjectId → F File
base_file none = pure empty_file
base_file (some hash) = do files ← gets (λ s. s.store.files); unwrap (files hash)

module _ (b : Blake3) (now : ℕ → SystemTime) where
  unfoldable pub write_node : Option InodeAttributes → ℕ → Bytes → F ℕ
  unfolding on_mount Mount.time_now grown cursor_write set_inode
  write_node none offset bytes = throw ebadf
  write_node (some attrs) offset bytes = do
    f ← base_file attrs.hash
    modified ← on_mount (Mount.time_now now)
    changed ← on_mount (Mount.time_now now)
    let touched = update_last_metadata_changed changed (update_last_modified modified attrs)
    let sized = grown touched (length bytes + offset)
    let written = record f { content = cursor_write f.content offset bytes }
    hash ← unwrap (file_get_hash b written)
    modify (λ s. record s {
      store = record s.store { files = HashMap.insert hash written s.store.files };
    })
    set_inode (set_hash hash sized)
    pure (length bytes % 2 ^ 32)

  -- What runs under the guard of the store's mutex of files.
  abbrev pub write_locked : Inode → ℕ → Bytes → F ℕ
  write_locked inode offset bytes = do
    node ← on_mount (Mount.get_inode inode)
    write_node node offset bytes

  unfoldable pub write : Inode → ℕ → ℤ → Bytes → F ℕ
  unfolding write_node on_mount Mount.get_inode
  write inode fh offset bytes = do
    offset' ← non_negative offset
    require (check_file_handle_write fh)
    write_locked inode offset' bytes

unfoldable pub readlink_node : Option InodeAttributes → F Bytes
unfolding get_symlink
readlink_node none = throw enoent
readlink_node (some attr) = do
  hash ← unwrap attr.hash
  store ← gets (λ s. s.store)
  symlink ← unwrap (get_symlink hash store)
  pure symlink.target

unfoldable pub readlink : Inode → F Bytes
unfolding readlink_node on_mount Mount.get_inode
readlink inode = do attr ← on_mount (Mount.get_inode inode); readlink_node attr
