-- ===== src/Fs/Rename.antt =====
-- fs.rs: `rename`.
pub mod Moves
pub mod Whole
use Prim.Native.Nat.{bit_and}
use cultivate.Common.{
  ℕ, Option, none, some, Bytes, length, nat_eq, ltb, if◌then◌else◌, not, ◌&&◌, pure, throw, abort,
  attempt, ◌>>=◌, ◌>>◌,
}
use cultivate.BTreeMap
use cultivate.Errno.{enotempty}
use cultivate.Inode.Clock.{SystemTime}
use cultivate.Inode.{
  Inode, FileKind, InodeAttributes, kind_eq, dec_hardlink_count, update_last_modified,
  update_last_metadata_changed,
}
use cultivate.Mount
use cultivate.Mount.Insert.{dot_dot}
use cultivate.Fs.{F, Request, on_mount, get_inode, set_inode, set_directory_content, lookup_name}
use cultivate.Fs.Access.{require_access, w_ok}
use cultivate.Fs.Node.{unwrap_directory, touch}

abbrev pub rename_exchange : ℕ
rename_exchange = 2

-- `todo!()` for an exchange
unfoldable pub refuse_exchange : ℕ → F (Unit {0})
refuse_exchange flags = if not (nat_eq (bit_and flags rename_exchange) 0) then abort else pure tt

abbrev pub check_empty : Option InodeAttributes → F (Unit {0})
check_empty none = pure tt
check_empty (some attrs) =
    if kind_eq attrs.kind FileKind.directory
    then (do
      entries ← unwrap_directory attrs.inode
      if ltb 2 (length entries) then throw enotempty else pure tt)
    else pure tt

-- Only overwrite an existing directory if it's empty.
unfoldable pub require_replaceable : Inode → Bytes → F (Unit {0})
unfolding lookup_name unwrap_directory
require_replaceable new_parent new_name = do
  found ← attempt (lookup_name new_parent new_name)
  check_empty found

-- Only move an existing directory to a new parent, if we have write access to it.
unfoldable pub require_movable : Request → Inode → Inode → InodeAttributes → F (Unit {0})
unfolding require_access
require_movable req parent new_parent inode_attrs =
    if kind_eq inode_attrs.kind FileKind.directory && not (nat_eq parent new_parent)
    then require_access req inode_attrs w_ok
    else pure tt

module _ (now : ℕ → SystemTime) where
  abbrev pub drop_node : InodeAttributes → F (Unit {0})
  drop_node existing = if kind_eq existing.kind FileKind.directory then abort else (do
    changed ← on_mount (Mount.time_now now)
    set_inode (update_last_metadata_changed changed (dec_hardlink_count existing)))

  abbrev pub drop_link : Inode → Bytes → Option InodeAttributes → F (Unit {0})
  drop_link new_parent new_name none = pure tt
  drop_link new_parent new_name (some existing) = do
    entries ← unwrap_directory new_parent
    set_directory_content new_parent (BTreeMap.remove new_name entries)
    drop_node existing

  -- If target already exists decrement its hardlink count; a directory there meets a `todo!()`.
  unfoldable pub unlink_existing : Inode → Bytes → F (Unit {0})
  unfolding lookup_name unwrap_directory set_directory_content on_mount Mount.time_now set_inode
  unlink_existing new_parent new_name = do
    found ← attempt (lookup_name new_parent new_name)
    drop_link new_parent new_name found

  -- The moves between the directories.
  unfoldable pub move_entry : Inode → Bytes → Inode → Bytes → InodeAttributes → F (Unit {0})
  unfolding unwrap_directory set_directory_content
  move_entry parent name new_parent new_name inode_attrs = do
    entries ← unwrap_directory parent
    set_directory_content parent (BTreeMap.remove name entries)
    entries' ← unwrap_directory new_parent
    set_directory_content new_parent
        (BTreeMap.insert new_name (inode_attrs.inode, inode_attrs.kind) entries')

  -- The new times of the three inodes.
  unfoldable pub stamp : InodeAttributes → InodeAttributes → InodeAttributes → F (Unit {0})
  unfolding touch on_mount Mount.time_now set_inode
  stamp parent_attrs new_parent_attrs inode_attrs = do
    touch now parent_attrs
    changed ← on_mount (Mount.time_now now)
    modified ← on_mount (Mount.time_now now)
    set_inode
        (update_last_modified modified (update_last_metadata_changed changed new_parent_attrs))
    changed' ← on_mount (Mount.time_now now)
    set_inode (update_last_metadata_changed changed' inode_attrs)

  -- change the .. to the new parent
  unfoldable pub point_up : Inode → InodeAttributes → F (Unit {0})
  unfolding unwrap_directory set_directory_content
  point_up new_parent inode_attrs =
      if kind_eq inode_attrs.kind FileKind.directory
      then (do
        entries ← unwrap_directory inode_attrs.inode
        set_directory_content inode_attrs.inode
            (BTreeMap.insert dot_dot (new_parent, FileKind.directory) entries))
      else pure tt

  unfoldable pub rename : Request → Inode → Bytes → Inode → Bytes → ℕ → F (Unit {0})
  rename req parent name new_parent new_name flags = do
    inode_attrs ← lookup_name parent name
    parent_attrs ← get_inode parent
    require_access req parent_attrs w_ok
    new_parent_attrs ← get_inode new_parent
    require_access req new_parent_attrs w_ok
    refuse_exchange flags
    require_replaceable new_parent new_name
    require_movable req parent new_parent inode_attrs
    unlink_existing new_parent new_name
    move_entry parent name new_parent new_name inode_attrs
    stamp parent_attrs new_parent_attrs inode_attrs
    point_up new_parent inode_attrs
