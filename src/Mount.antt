-- ===== src/Mount.antt =====
-- mount_store.rs, first half: the inodes and directories of one mount. The fields behind locks and
-- the atomic counter are the fields of a record. An operation is one critical section.
--
-- The clock is a parameter: its n-th reading, for every n. `readings` counts those made so far.
pub mod Insert
pub mod Depth
use cultivate.Common.{
  ℕ, ◌+◌, ◌%◌, ◌^◌, Option, none, some, Bytes, nat_key, Run, ok, ◌>>=◌, ◌>>◌, unwrap, gets, modify,
}
use cultivate.HashMap
use cultivate.HashMap.{HashMap}
use cultivate.BTreeMap.{BTreeMap}
use cultivate.Errno.{Errno}
use cultivate.Object.{ObjectId}
use cultivate.Store.{Store, get_empty_tree_id}
use cultivate.Inode.Clock.{SystemTime, Time, time_from_system_time}
use cultivate.Inode.{Inode, FileKind, InodeAttributes, new_attributes}

abbrev pub DirectoryDescriptor : Type 0
DirectoryDescriptor = BTreeMap (Inode × FileKind)

pub record Mount : Type 0 where
  pub nodes : HashMap Inode InodeAttributes
  pub directories : HashMap Inode DirectoryDescriptor
  pub next_inode : ℕ
  pub op_id : Option Bytes
  pub workspace_id : Option Bytes
  pub tree_id : ObjectId
  pub readings : ℕ

abbrev pub M : Type 0 → Type 0
M A = Run Mount Errno A

-- `MountStore::new`
unfoldable pub new : Store → ℕ → Mount
new store readings = record {
  nodes = HashMap.empty;
  directories = HashMap.empty;
  next_inode = 1;
  op_id = none;
  workspace_id = none;
  tree_id = get_empty_tree_id store;
  readings = readings;
}

unfoldable pub allocate_inode : M Inode
allocate_inode m = (ok m.next_inode, record m { next_inode = (m.next_inode + 1) % 2 ^ 64 })

unfoldable pub get_tree_id : {E : Type 0} → Run Mount E ObjectId
get_tree_id = gets (λ m. m.tree_id)

unfoldable pub get_op_id : {E : Type 0} → Run Mount E Bytes
get_op_id = do op_id ← gets (λ m. m.op_id); unwrap op_id

unfoldable pub set_op_id : {E : Type 0} → Bytes → Run Mount E (Unit {0})
set_op_id op = modify (λ m. record m { op_id = some op })

unfoldable pub get_workspace_id : {E : Type 0} → Run Mount E Bytes
get_workspace_id = do workspace_id ← gets (λ m. m.workspace_id); unwrap workspace_id

unfoldable pub set_workspace_id : {E : Type 0} → Bytes → Run Mount E (Unit {0})
set_workspace_id op = modify (λ m. record m { workspace_id = some op })

unfoldable pub set_inode : InodeAttributes → M (Unit {0})
set_inode attrs = modify (λ m. record m { nodes = HashMap.insert attrs.inode attrs m.nodes })

unfoldable pub set_directory_content : Inode → DirectoryDescriptor → M (Unit {0})
set_directory_content inode descriptor =
    modify (λ m. record m { directories = HashMap.insert inode descriptor m.directories })

unfoldable pub get_directory_content : Inode → M (Option DirectoryDescriptor)
get_directory_content inode = gets (λ m. m.directories inode)

unfoldable pub get_inode : Inode → M (Option InodeAttributes)
get_inode inode = gets (λ m. m.nodes inode)

module _ (now : ℕ → SystemTime) where
  unfoldable pub time_now : M Time
  time_now m = (ok (time_from_system_time (now m.readings)), record m { readings = m.readings + 1 })

  -- `InodeAttributes::new`
  unfoldable pub new_node : Inode → FileKind → ℕ → M InodeAttributes
  unfolding time_now
  new_node inode kind size = do
    accessed ← time_now
    modified ← time_now
    changed ← time_now
    unwrap (new_attributes inode kind size accessed modified changed)

  unfoldable pub create_new_node : FileKind → M InodeAttributes
  unfolding allocate_inode new_node set_inode
  create_new_node kind = do
    inode ← allocate_inode
    attrs ← new_node inode kind 0
    set_inode attrs
    (λ m. (ok attrs, m))
