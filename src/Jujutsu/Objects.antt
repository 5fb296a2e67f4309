-- ===== src/Jujutsu/Objects.antt =====
-- daemon/src/store.rs: the types of the new daemon's objects, and its store, which holds nothing yet:
-- every method meets a `todo!()`. The daemon makes one and uses none of its methods.
use cultivate.Common.{Bool, Option, List, Bytes, Run, abort}
use cultivate.Daemon.{Status}

-- `[u8; 32]`
abbrev pub ObjectId : Type 0
ObjectId = Bytes

pub data TreeEntry : Type 0 where
  file : ObjectId → (executable : Bool) → TreeEntry
  tree_id symlink_id conflict_id : ObjectId → TreeEntry

pub record Tree : Type 0 where
  pub entries : List (Bytes × TreeEntry)

pub record Symlink : Type 0 where
  pub target : Bytes

pub record File : Type 0 where
  pub content : Bytes

pub record Store : Type 0 where

unfoldable pub new : Store
new = record {}

abbrev S : Type 0 → Type 0
S A = Run Store Status A

unfoldable pub get_tree : ObjectId → S (Option Tree)
get_tree id = abort

unfoldable pub write_tree : Tree → S ObjectId
write_tree tree = abort

unfoldable pub get_file : ObjectId → S (Option File)
get_file id = abort

unfoldable pub write_file : File → S ObjectId
write_file _ = abort

unfoldable pub get_symlink : ObjectId → S (Option Symlink)
get_symlink id = abort

unfoldable pub write_symlink : Symlink → S ObjectId
write_symlink symlink = abort
