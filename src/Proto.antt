-- ===== src/Proto.antt =====
-- proto/jj_interface.proto: the messages. A message field may be absent (`Option`), a scalar or
-- repeated field never is. Texts and byte fields are byte strings.
use cultivate.Common.{Bool, Option, List, Bytes, ℤ}

pub record InitializeReq : Type 0 where
  pub path : Bytes

pub record InitializeReply : Type 0 where

pub record SnapshotReq : Type 0 where
  pub working_copy_path : Bytes

pub record SnapshotReply : Type 0 where
  pub tree_id : Bytes

pub record GetTreeStateReq : Type 0 where
  pub working_copy_path : Bytes

pub record GetTreeStateReply : Type 0 where
  pub tree_id : Bytes

pub record CheckoutState : Type 0 where
  pub op_id : Bytes
  pub workspace_id : Bytes

pub record SetCheckoutStateReply : Type 0 where

pub record SetCheckoutStateReq : Type 0 where
  pub working_copy_path : Bytes
  pub checkout_state : Option CheckoutState

pub record GetCheckoutStateReq : Type 0 where
  pub working_copy_path : Bytes

pub record FileId : Type 0 where
  pub file_id : Bytes

pub record File : Type 0 where
  pub «data» : Bytes

pub record Symlink : Type 0 where
  pub target : Bytes

pub record SymlinkId : Type 0 where
  pub symlink_id : Bytes

pub record TreeId : Type 0 where
  pub tree_id : Bytes

-- `TreeValue.File`
pub record FileValue : Type 0 where
  pub id : Bytes
  pub executable : Bool

-- the `oneof value` of `TreeValue`
pub data Value : Type 0 where
  file : FileValue → Value
  symlink_id : Bytes → Value
  tree_id : Bytes → Value
  conflict_id : Bytes → Value

pub record TreeValue : Type 0 where
  pub value : Option Value

-- `Tree.Entry`
pub record Entry : Type 0 where
  pub name : Bytes
  pub value : Option TreeValue

pub record Tree : Type 0 where
  pub entries : List Entry

pub record CommitId : Type 0 where
  pub commit_id : Bytes

pub record Timestamp : Type 0 where
  pub millis_since_epoch : ℤ
  pub tz_offset : ℤ

pub record Signature : Type 0 where
  pub name : Bytes
  pub email : Bytes
  pub timestamp : Option Timestamp

pub record Commit : Type 0 where
  pub parents : List Bytes
  pub predecessors : List Bytes
  pub root_tree : List Bytes
  pub uses_tree_conflict_format : Bool
  pub change_id : Bytes
  pub description : Bytes
  pub author : Option Signature
  pub committer : Option Signature
  pub secure_sig : Option Bytes
