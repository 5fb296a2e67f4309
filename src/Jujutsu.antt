-- ===== src/Jujutsu.antt =====
-- daemon/src/service.rs: `JujutsuService`, the service of the daemon that is to take the place of
-- daemon-old. Its handlers read the request and meet a `todo!()`, which ends the task of the call.
-- Tracing is left out.
pub mod Objects
pub mod Calls
use cultivate.Common.{ℕ, Bytes, Run, abort}
use cultivate.Proto
use cultivate.ContentHash.{Blake3}
use cultivate.Daemon.{Status}
use cultivate.Service.{Prost}
use cultivate.Client.{Server}

-- It has no fields.
pub record JujutsuService : Type 0 where

unfoldable pub new : JujutsuService
new = record {}

abbrev pub J : Type 0 → Type 0
J A = Run JujutsuService Status A

unfoldable pub initialize : Proto.InitializeReq → J Proto.InitializeReply
initialize req = abort

unfoldable pub get_tree_state : Proto.GetTreeStateReq → J Proto.GetTreeStateReply
get_tree_state req = abort

unfoldable pub get_checkout_state : Proto.GetCheckoutStateReq → J Proto.CheckoutState
get_checkout_state req = abort

unfoldable pub set_checkout_state : Proto.SetCheckoutStateReq → J Proto.SetCheckoutStateReply
set_checkout_state req = abort

unfoldable pub snapshot : Proto.SnapshotReq → J Proto.SnapshotReply
snapshot req = abort

unfoldable pub get_empty_tree_id : J Proto.TreeId
get_empty_tree_id = abort

unfoldable pub concurrency : J ℕ
concurrency = abort

unfoldable pub write_file : Proto.File → J Proto.FileId
write_file request = abort

unfoldable pub read_file : Proto.FileId → J Proto.File
read_file request = abort

-- The id is computed, and not used.
unfoldable pub write_symlink : Blake3 → Prost → Proto.Symlink → J Proto.SymlinkId
write_symlink b prost symlink = let symlink_id = b.hash (prost.encode_symlink symlink) in abort

unfoldable pub read_symlink : Proto.SymlinkId → J Proto.Symlink
read_symlink request = abort

unfoldable pub write_tree : Proto.Tree → J Proto.TreeId
write_tree request = abort

unfoldable pub read_tree : Proto.TreeId → J Proto.Tree
read_tree request = abort

unfoldable pub write_commit : Proto.Commit → J Proto.CommitId
write_commit request = abort

unfoldable pub read_commit : Proto.CommitId → J Proto.Commit
read_commit request = abort

-- The service as the server of the client.
abbrev pub daemon : Blake3 → Prost → Server
daemon b prost = record {
  State = JujutsuService;
  initialize = initialize;
  get_tree_state = get_tree_state;
  get_checkout_state = get_checkout_state;
  set_checkout_state = set_checkout_state;
  snapshot = snapshot;
  get_empty_tree_id = get_empty_tree_id;
  write_file = write_file;
  read_file = read_file;
  write_symlink = write_symlink b prost;
  read_symlink = read_symlink;
  write_tree = write_tree;
  read_tree = read_tree;
  write_commit = write_commit;
  read_commit = read_commit;
}
