-- ===== src/Client.antt =====
-- cli/src/blocking_client.rs: the remote calls of the command-line client.
--
-- `Server` is the interface between the client and a daemon: the state that a daemon keeps and one
-- operation for each call of the service in jj_interface.proto. `KeepsObjects` is what the client may
-- rely on. `Served` has the daemon's service as such a server.
pub mod Locks
pub mod Served
use cultivate.Common.{
  Bool, true, false, Option, Bytes, Outcome, ok, err, panic, Run, ◌≡◌, ◌≢◌, [], List,
}
use cultivate.Proto
use cultivate.Daemon.{Status}

pub record Server : Type 1 where
  pub State : Type 0
  pub initialize : Proto.InitializeReq → Run State Status Proto.InitializeReply
  pub get_tree_state : Proto.GetTreeStateReq → Run State Status Proto.GetTreeStateReply
  pub get_checkout_state : Proto.GetCheckoutStateReq → Run State Status Proto.CheckoutState
  pub set_checkout_state : Proto.SetCheckoutStateReq → Run State Status Proto.SetCheckoutStateReply
  pub snapshot : Proto.SnapshotReq → Run State Status Proto.SnapshotReply
  pub get_empty_tree_id : Run State Status Proto.TreeId
  pub write_file : Proto.File → Run State Status Proto.FileId
  pub read_file : Proto.FileId → Run State Status Proto.File
  pub write_symlink : Proto.Symlink → Run State Status Proto.SymlinkId
  pub read_symlink : Proto.SymlinkId → Run State Status Proto.Symlink
  pub write_tree : Proto.Tree → Run State Status Proto.TreeId
  pub read_tree : Proto.TreeId → Run State Status Proto.Tree
  pub write_commit : Proto.Commit → Run State Status Proto.CommitId
  pub read_commit : Proto.CommitId → Run State Status Proto.Commit

-- What a write replies leads a read, at once, to what was written, and the daemon goes on working.
abbrev pub Returns :
    {S A I : Type 0} → (S → Type 0) → (A → Run S Status I) → (I → Run S Status A) → A → S → Type 0
Returns {S} {I = I} Ready write read a s =
    (id : I) × (t : S) × (write a s ≡ (ok id, t)) × (read id t ≡ (ok a, t)) × Ready t

-- `Ready` says in which states the daemon works, `Storable` which trees it takes.
pub record KeepsObjects (server : Server) (Ready : server.State → Type 0)
    (Storable : Proto.Tree → Type 0) : Type 0 where
  pub files :
      (file : Proto.File) (s : server.State)
      → Ready s
      → Returns Ready server.write_file server.read_file file s
  pub symlinks :
      (symlink : Proto.Symlink) (s : server.State)
      → Ready s
      → Returns Ready server.write_symlink server.read_symlink symlink s
  pub trees :
      (tree : Proto.Tree) (s : server.State)
      → Storable tree
      → Ready s
      → Returns Ready server.write_tree server.read_tree tree s
  pub commits :
      (commit : Proto.Commit) (s : server.State)
      → commit.parents ≢ []
      → Ready s
      → Returns Ready server.write_commit server.read_commit commit s

-- `block_on` of a call. Where the daemon's task panics the caller gets a status, `lost`.
abbrev answered : {S A : Type 0} → Status → Outcome Status A × S → Outcome Status A × S
answered lost (ok a, s) = (ok a, s)
answered lost (err e, s) = (err e, s)
answered lost (panic, s) = (err lost, s)

-- `.unwrap()` of a call's result
abbrev unwrapped : {S E A : Type 0} → Outcome Status A × S → Outcome E A × S
unwrapped (ok a, s) = (ok a, s)
unwrapped (err e, s) = (panic, s)
unwrapped (panic, s) = (panic, s)

abbrev pub unwrap_reply : {S E A : Type 0} → Run S Status A → Run S E A
unwrap_reply call s = unwrapped (call s)

module _ (server : Server) (lost : Status) where
  abbrev pub Remote : Type 0 → Type 0
  Remote A = Run server.State Status A

  abbrev block_on : {A : Type 0} → Remote A → Remote A
  block_on call s = answered lost (call s)

  unfoldable pub initialize : Proto.InitializeReq → Remote Proto.InitializeReply
  initialize request = block_on (server.initialize request)

  unfoldable pub get_tree_state : Proto.GetTreeStateReq → Remote Proto.GetTreeStateReply
  get_tree_state request = block_on (server.get_tree_state request)

  unfoldable pub get_checkout_state : Proto.GetCheckoutStateReq → Remote Proto.CheckoutState
  get_checkout_state request = block_on (server.get_checkout_state request)

  unfoldable pub set_checkout_state : Proto.SetCheckoutStateReq → Remote Proto.SetCheckoutStateReply
  set_checkout_state request = block_on (server.set_checkout_state request)

  unfoldable pub snapshot : Proto.SnapshotReq → Remote Proto.SnapshotReply
  snapshot request = block_on (server.snapshot request)

  unfoldable pub get_empty_tree_id : Remote Proto.TreeId
  get_empty_tree_id = block_on server.get_empty_tree_id

  unfoldable pub write_file : Proto.File → Remote Proto.FileId
  write_file request = block_on (server.write_file request)

  unfoldable pub read_file : Proto.FileId → Remote Proto.File
  read_file request = block_on (server.read_file request)

  unfoldable pub write_symlink : Proto.Symlink → Remote Proto.SymlinkId
  write_symlink request = block_on (server.write_symlink request)

  unfoldable pub read_symlink : Proto.SymlinkId → Remote Proto.Symlink
  read_symlink request = block_on (server.read_symlink request)

  unfoldable pub write_tree : Proto.Tree → Remote Proto.TreeId
  write_tree request = block_on (server.write_tree request)

  unfoldable pub read_tree : Proto.TreeId → Remote Proto.Tree
  read_tree request = block_on (server.read_tree request)

  unfoldable pub write_commit : Proto.Commit → Remote Proto.CommitId
  write_commit request = block_on (server.write_commit request)

  unfoldable pub read_commit : Proto.CommitId → Remote Proto.Commit
  read_commit request = block_on (server.read_commit request)
