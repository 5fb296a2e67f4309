-- ===== src/Service.antt =====
-- service/backend.rs: the handlers of the daemon's service. A request comes without its envelope and a
-- reply goes without it. Tracing and printing are left out.
--
-- prost's encoding of a message as bytes is a parameter. The `proto::backend` of the source has the
-- messages of jj_interface.proto.
pub mod Runs
pub mod Objects
pub mod Checkout
pub mod Poison
pub mod Growing
pub mod Calls
pub mod Control
use cultivate.Common.{
  ℕ, Bool, true, false, Option, none, some, List, [], ◌∷◌, Bytes, bytes_key, from_utf8,
  if◌then◌else◌, pure, throw, abort, unwrap, gets, modify, ◌>>=◌, ◌>>◌,
}
use cultivate.HashMap
use cultivate.Proto
use cultivate.ContentHash.{Blake3}
use cultivate.Object.{ObjectId, File, Symlink, Tree}
use cultivate.Object.Proto.{
  to_array, file_as_proto, file_from_proto, symlink_as_proto, symlink_from_proto, tree_as_proto,
  tree_from_proto,
}
use cultivate.Store
use cultivate.Store.{get_tree}
use cultivate.Mount
use cultivate.Mount.{Mount}
use cultivate.Daemon.{
  D, Status, internal, Daemon, Platform, with_lock, get, on_mount, on_store, initialize_repo,
}
use cultivate.Daemon.Locks.{
  commits_lock, files_lock, symlinks_lock, trees_lock, op_id_lock, workspace_id_lock,
}

-- `Message::encode_to_vec`
pub record Prost : Type 0 where
  pub encode_file : Proto.File → Bytes
  pub encode_symlink : Proto.Symlink → Bytes
  pub encode_commit : Proto.Commit → Bytes

module _ (platform : Platform) where
  unfoldable pub initialize : Proto.InitializeReq → D Proto.InitializeReply
  unfolding initialize_repo
  initialize req = do initialize_repo platform req.path; pure (record {})

-- `self.repo_mgr.get(...).unwrap()`
unfoldable pub get_mount : Bytes → D (Unit {0})
unfolding get
get_mount path = do found ← get path; unwrap found; pure tt

unfoldable pub get_tree_state : Proto.GetTreeStateReq → D Proto.GetTreeStateReply
unfolding get_mount on_mount Mount.get_tree_id
get_tree_state req = do
  get_mount req.working_copy_path
  tree_id ← on_mount req.working_copy_path Mount.get_tree_id
  pure (record { tree_id = tree_id })

unfoldable pub get_checkout_state : Proto.GetCheckoutStateReq → D Proto.CheckoutState
unfolding get_mount with_lock on_mount Mount.get_op_id Mount.get_workspace_id
get_checkout_state req = do
  let path = req.working_copy_path
  get_mount path
  op_id ← with_lock (op_id_lock path) (on_mount path Mount.get_op_id)
  workspace_id ← with_lock (workspace_id_lock path) (on_mount path Mount.get_workspace_id)
  pure (record { op_id = op_id; workspace_id = workspace_id })

unfoldable pub set_checkout_state : Proto.SetCheckoutStateReq → D Proto.SetCheckoutStateReply
unfolding get_mount to_array with_lock on_mount Mount.set_op_id Mount.set_workspace_id
set_checkout_state req = do
  let path = req.working_copy_path
  get_mount path
  cs ← unwrap req.checkout_state
  op_id ← unwrap (to_array 64 cs.op_id)
  workspace_id ← unwrap (from_utf8 cs.workspace_id)
  with_lock (op_id_lock path) (on_mount path (Mount.set_op_id op_id))
  with_lock (workspace_id_lock path) (on_mount path (Mount.set_workspace_id workspace_id))
  pure (record {})

-- It takes no snapshot yet: the tree is the one that the mount started with.
unfoldable pub snapshot : Proto.SnapshotReq → D Proto.SnapshotReply
unfolding get_mount on_mount Mount.get_tree_id
snapshot req = do
  get_mount req.working_copy_path
  tree_id ← on_mount req.working_copy_path Mount.get_tree_id
  pure (record { tree_id = tree_id })

unfoldable pub get_empty_tree_id : D Proto.TreeId
get_empty_tree_id = do store ← gets (λ s. s.store); pure (record { tree_id = store.empty_tree_id })

-- `todo!()`
unfoldable pub concurrency : D ℕ
concurrency = abort

unfoldable pub read_file : Proto.FileId → D Proto.File
unfolding with_lock file_as_proto
read_file req = with_lock files_lock (do
  files ← gets (λ s. s.store.files)
  file ← unwrap (files req.file_id)
  pure (file_as_proto file))

unfoldable pub read_symlink : Proto.SymlinkId → D Proto.Symlink
unfolding with_lock symlink_as_proto
read_symlink req = with_lock symlinks_lock (do
  symlinks ← gets (λ s. s.store.symlinks)
  symlink ← unwrap (symlinks req.symlink_id)
  pure (symlink_as_proto symlink))

-- The tree is cloned out of the map, so that the lock is free when the conversion panics.
unfoldable pub read_tree : Proto.TreeId → D Proto.Tree
unfolding to_array with_lock get_tree tree_as_proto
read_tree req = do
  tree_id ← unwrap (to_array 32 req.tree_id)
  found ← with_lock trees_lock (gets (λ s. get_tree tree_id s.store))
  tree ← unwrap found
  unwrap (tree_as_proto tree)

unfoldable pub read_commit : Proto.CommitId → D Proto.Commit
unfolding with_lock
read_commit req =
    with_lock commits_lock
      (do commits ← gets (λ s. s.store.commits); unwrap (commits req.commit_id))

-- "Cannot write a commit with no parents"
abbrev pub no_parents : Status
no_parents = internal (
    b'C' ∷ b'a' ∷ b'n' ∷ b'n' ∷ b'o' ∷ b't' ∷ b' ' ∷ b'w' ∷ b'r' ∷ b'i' ∷ b't' ∷ b'e' ∷ b' ' ∷ b'a'
    ∷ b' ' ∷ b'c' ∷ b'o' ∷ b'm' ∷ b'm' ∷ b'i' ∷ b't' ∷ b' ' ∷ b'w' ∷ b'i' ∷ b't' ∷ b'h' ∷ b' '
    ∷ b'n' ∷ b'o' ∷ b' ' ∷ b'p' ∷ b'a' ∷ b'r' ∷ b'e' ∷ b'n' ∷ b't' ∷ b's' ∷ [])

abbrev require_parents : List Bytes → D (Unit {0})
require_parents [] = throw no_parents
require_parents (parent ∷ parents) = pure tt

module _ (b : Blake3) (prost : Prost) where
  unfoldable pub write_file : Proto.File → D Proto.FileId
  unfolding with_lock file_from_proto
  write_file file = do
    let file_id = b.hash (prost.encode_file file)
    with_lock files_lock (
        modify (λ s. record s {
          store = record s.store {
            files = HashMap.insert file_id (file_from_proto file) s.store.files;
          };
        }))
    pure (record { file_id = file_id })

  unfoldable pub write_symlink : Proto.Symlink → D Proto.SymlinkId
  unfolding with_lock symlink_from_proto
  write_symlink symlink = do
    let symlink_id = b.hash (prost.encode_symlink symlink)
    with_lock symlinks_lock (
        modify (λ s. record s {
          store = record s.store {
            symlinks = HashMap.insert symlink_id (symlink_from_proto symlink) s.store.symlinks;
          };
        }))
    pure (record { symlink_id = symlink_id })

  -- `Store::write_tree` takes the lock and hashes the tree under it.
  unfoldable pub write_tree : Proto.Tree → D Proto.TreeId
  unfolding tree_from_proto with_lock on_store Store.write_tree
  write_tree req = do
    tree ← unwrap (tree_from_proto req)
    tree_id ← with_lock trees_lock (on_store (Store.write_tree b tree))
    pure (record { tree_id = tree_id })

  unfoldable pub write_commit : Proto.Commit → D Proto.CommitId
  unfolding with_lock
  write_commit commit = do
    require_parents commit.parents
    let commit_id = b.hash (prost.encode_commit commit)
    with_lock commits_lock (
        modify (λ s. record s {
          store = record s.store { commits = HashMap.insert commit_id commit s.store.commits };
        }))
    pure (record { commit_id = commit_id })
