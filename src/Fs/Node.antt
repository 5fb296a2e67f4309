-- ===== src/Fs/Node.antt =====
-- fs.rs: the helpers that the creating handlers share.
use Prim.Native.Nat.{bit_and}
use cultivate.Common.{
  ℕ, Option, none, some, Bytes, nat_eq, if◌then◌else◌, not, pure, throw, attempt, unwrap, ◌>>=◌,
  ◌>>◌,
}
use cultivate.BTreeMap
use cultivate.Errno.{eexist}
use cultivate.Inode.Clock.{SystemTime}
use cultivate.Inode.{
  Inode, FileKind, InodeAttributes, update_last_modified, update_last_metadata_changed,
}
use cultivate.Mount
use cultivate.Mount.{DirectoryDescriptor}
use cultivate.Fs.{
  F, Request, on_mount, get_inode, get_directory_content, set_inode, set_directory_content,
  lookup_name,
}
use cultivate.Fs.Access.{require_access, w_ok}

-- libc's file type and permission bits
abbrev pub s_isuid : ℕ
s_isuid = 0o4000

abbrev pub s_isgid : ℕ
s_isgid = 0o2000

abbrev pub s_ifmt : ℕ
s_ifmt = 0o170000

abbrev pub s_ifreg : ℕ
s_ifreg = 0o100000

abbrev pub s_iflnk : ℕ
s_iflnk = 0o120000

abbrev pub s_ifdir : ℕ
s_ifdir = 0o040000

-- `get_directory_content(...).unwrap()`: an error panics
unfoldable pub unwrap_directory : Inode → F DirectoryDescriptor
unfolding get_directory_content
unwrap_directory inode = do found ← attempt (get_directory_content inode); unwrap found

abbrev pub refuse_present : Option InodeAttributes → F (Unit {0})
refuse_present none = pure tt
refuse_present (some attrs) = throw eexist

-- `if self.lookup_name(parent, name).is_ok() { return EEXIST }`
unfoldable pub require_absent : Inode → Bytes → F (Unit {0})
unfolding lookup_name
require_absent parent name = do found ← attempt (lookup_name parent name); refuse_present found

unfoldable pub creation_gid : InodeAttributes → ℕ → ℕ
creation_gid parent gid = if not (nat_eq (bit_and parent.mode s_isgid) 0) then parent.gid else gid

-- `unimplemented!` for all other types
unfoldable pub as_file_kind : ℕ → Option FileKind
as_file_kind mode =
    let format = bit_and mode s_ifmt in
    if nat_eq format s_ifreg
    then some FileKind.file
    else if nat_eq format s_iflnk
    then some FileKind.symlink
    else if nat_eq format s_ifdir
    then some FileKind.directory
    else none

module _ (now : ℕ → SystemTime) where
  -- `update_last_modified`, `update_last_metadata_changed`, `set_inode`: gives the new attributes
  unfoldable pub touch : InodeAttributes → F InodeAttributes
  unfolding Mount.time_now on_mount set_inode
  touch attrs = do
    modified ← on_mount (Mount.time_now now)
    changed ← on_mount (Mount.time_now now)
    let touched = update_last_metadata_changed changed (update_last_modified modified attrs)
    set_inode touched
    pure touched

  unfoldable pub insert_link : Request → Inode → Bytes → Inode → FileKind → F (Unit {0})
  unfolding require_absent get_inode require_access touch unwrap_directory set_directory_content
  insert_link req parent name inode kind = do
    require_absent parent name
    parent_attrs ← get_inode parent
    require_access req parent_attrs w_ok
    touch parent_attrs
    entries ← unwrap_directory parent
    set_directory_content parent (BTreeMap.insert name (inode, kind) entries)
