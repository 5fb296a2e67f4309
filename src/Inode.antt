-- ===== src/Inode.antt =====
-- mount_store.rs, second half: the attributes of an inode, the kinds of files, and their conversion
-- into the attributes that the FUSE library sends.
pub mod Clock
pub mod Blocks
pub mod Counters
use cultivate.Common.{
  ℕ, ◌+◌, ◌-◌, ◌/◌, ◌%◌, ◌^◌, Bool, true, false, ◌&&◌, ◌||◌, Option, none, some, [], Bytes, nat_eq,
  if◌then◌else◌, ℤ,
}
use cultivate.BTreeMap.{BTreeMap}
use cultivate.Object.{ObjectId}
use cultivate.Inode.Clock.{Time, SystemTime, unix_epoch, system_time_from_time}

-- `u64`
abbrev pub Inode : Type 0
Inode = ℕ

pub data FileKind : Type 0 where
  file directory symlink : FileKind

-- the derived `PartialEq`
abbrev pub kind_eq : FileKind → FileKind → Bool
kind_eq file file = true
kind_eq directory directory = true
kind_eq symlink symlink = true
kind_eq _ _ = false

pub record InodeAttributes : Type 0 where
  pub inode : Inode
  pub hash : Option ObjectId
  pub open_file_handles : ℕ
  pub size : ℕ
  pub last_accessed : Time
  pub last_modified : Time
  pub last_metadata_changed : Time
  pub kind : FileKind
  pub mode : ℕ
  pub hardlinks : ℕ
  pub uid : ℕ
  pub gid : ℕ
  pub xattrs : BTreeMap Bytes

-- The counters wrap at their width, as in a build without overflow checks.
unfoldable pub inc_file_handle : InodeAttributes → InodeAttributes
inc_file_handle a = record a { open_file_handles = (a.open_file_handles + 1) % 2 ^ 64 }

unfoldable pub dec_hardlink_count : InodeAttributes → InodeAttributes
dec_hardlink_count a = record a { hardlinks = (a.hardlinks + 2 ^ 32 - 1) % 2 ^ 32 }

unfoldable pub dec_file_handle : InodeAttributes → InodeAttributes
dec_file_handle a =
    if nat_eq a.open_file_handles 0
    then a
    else record a { open_file_handles = a.open_file_handles - 1 }

abbrev pub set_hash : ObjectId → InodeAttributes → InodeAttributes
set_hash hash a = record a { hash = some hash }

abbrev pub set_size : ℕ → InodeAttributes → InodeAttributes
set_size size a = record a { size = size }

abbrev pub set_uid : ℕ → InodeAttributes → InodeAttributes
set_uid uid a = record a { uid = uid }

abbrev pub set_gid : ℕ → InodeAttributes → InodeAttributes
set_gid gid a = record a { gid = gid }

-- The caller reads the clock.
abbrev pub update_last_modified : Time → InodeAttributes → InodeAttributes
update_last_modified now a = record a { last_modified = now }

abbrev pub update_last_metadata_changed : Time → InodeAttributes → InodeAttributes
update_last_metadata_changed now a = record a { last_metadata_changed = now }

abbrev hardlinks_of : FileKind → ℕ
hardlinks_of file = 1
hardlinks_of directory = 2
hardlinks_of symlink = 1

-- `InodeAttributes::new`, after its three readings of the clock; `none` where the assertion fails.
unfoldable pub new_attributes : Inode → FileKind → ℕ → Time → Time → Time → Option InodeAttributes
new_attributes inode kind size accessed modified changed =
    if kind_eq kind directory && nat_eq size 0 || kind_eq kind file || kind_eq kind symlink
    then some (record {
      inode = inode;
      hash = none;
      open_file_handles = 0;
      size = size;
      last_accessed = accessed;
      last_modified = modified;
      last_metadata_changed = changed;
      kind = kind;
      mode = 0o777;
      hardlinks = hardlinks_of kind;
      uid = 0;
      gid = 0;
      xattrs = [];
    })
    else none

-- fuser's `FileType` and `FileAttr`, as far as the program fills them in.
pub data FileType : Type 0 where
  regular_file directory symlink : FileType

unfoldable pub file_type : FileKind → FileType
file_type file = FileType.regular_file
file_type FileKind.directory = FileType.directory
file_type FileKind.symlink = FileType.symlink

pub record FileAttr : Type 0 where
  pub ino : ℕ
  pub size : ℕ
  pub blocks : ℕ
  pub atime : SystemTime
  pub mtime : SystemTime
  pub ctime : SystemTime
  pub crtime : SystemTime
  pub kind : FileType
  pub perm : ℕ
  pub nlink : ℕ
  pub uid : ℕ
  pub gid : ℕ
  pub rdev : ℕ
  pub blksize : ℕ
  pub flags : ℕ

abbrev pub block_size : ℕ
block_size = 512

-- The sum and the difference wrap at 64 bits.
unfoldable pub blocks_of : ℕ → ℕ
blocks_of size = ((size + block_size) % 2 ^ 64 + 2 ^ 64 - 1) % 2 ^ 64 / block_size

unfoldable pub file_attr : InodeAttributes → FileAttr
unfolding file_type blocks_of
file_attr a = record {
  ino = a.inode;
  size = a.size;
  blocks = blocks_of a.size;
  atime = system_time_from_time a.last_accessed.0 a.last_accessed.1;
  mtime = system_time_from_time a.last_modified.0 a.last_modified.1;
  ctime = system_time_from_time a.last_metadata_changed.0 a.last_metadata_changed.1;
  crtime = unix_epoch;
  kind = file_type a.kind;
  perm = a.mode;
  nlink = a.hardlinks;
  uid = a.uid;
  gid = a.gid;
  rdev = 0;
  blksize = block_size;
  flags = 0;
}
