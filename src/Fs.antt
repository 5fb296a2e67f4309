-- ===== src/Fs.antt =====
-- fs.rs: the file system that one mount serves. The FUSE library calls one handler at a time; a handler
-- takes the state and gives its reply and the new state. Its reply is a value, or the error code of
-- `reply.error`; a panic ends it.
--
-- `Fs` holds the content store, which the daemon shares, and the mount.
pub mod Access
pub mod Handle
pub mod Node
pub mod Listing
pub mod Open
pub mod Content
pub mod Create
pub mod Rename
pub mod Valid
pub mod Names
pub mod Storing
use cultivate.Common.{
  ℕ, ◌<◌, Bool, Option, none, some, [], Bytes, nat_key, Outcome, ok, err, panic, Run, pure, throw,
  ◌>>=◌, ◌>>◌, gets,
}
use cultivate.HashMap
use cultivate.BTreeMap
use cultivate.Errno.{Errno, enoent}
use cultivate.Object.{ObjectId}
use cultivate.Store.{Store}
use cultivate.Inode.{Inode, FileKind, InodeAttributes}
use cultivate.Mount
use cultivate.Mount.{Mount, DirectoryDescriptor}

pub record Fs : Type 0 where
  pub store : Store
  pub mount : Mount
  pub next_file_handle : ℕ

abbrev pub F : Type 0 → Type 0
F A = Run Fs Errno A

-- `CultivateFS::new`
unfoldable pub new : Store → Mount → Fs
new store mount = record { store = store; mount = mount; next_file_handle = 1 }

-- The user of a request.
pub record Request : Type 0 where
  pub uid : ℕ
  pub gid : ℕ

-- A call of the mount from a handler.
unfoldable pub on_mount : {A : Type 0} → Mount.M A → F A
on_mount m s = let (r, mount) = m s.mount in (r, record s { mount = mount })

abbrev pub or_enoent : {A : Type 0} → Option A → F A
or_enoent none = throw enoent
or_enoent (some a) = pure a

unfoldable pub get_inode : Inode → F InodeAttributes
unfolding on_mount Mount.get_inode
get_inode inode = do found ← on_mount (Mount.get_inode inode); or_enoent found

unfoldable pub get_directory_content : Inode → F DirectoryDescriptor
unfolding on_mount Mount.get_directory_content
get_directory_content inode = do
  found ← on_mount (Mount.get_directory_content inode)
  or_enoent found

unfoldable pub set_inode : InodeAttributes → F (Unit {0})
unfolding on_mount Mount.set_inode
set_inode attrs = on_mount (Mount.set_inode attrs)

unfoldable pub set_directory_content : Inode → DirectoryDescriptor → F (Unit {0})
unfolding on_mount Mount.set_directory_content
set_directory_content inode entries = on_mount (Mount.set_directory_content inode entries)

unfoldable pub lookup_name : Inode → Bytes → F InodeAttributes
unfolding get_directory_content get_inode
lookup_name parent name = do
  entries ← get_directory_content parent
  entry ← or_enoent (BTreeMap.get name entries)
  get_inode entry.0
