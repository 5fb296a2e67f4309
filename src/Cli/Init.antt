-- ===== src/Cli/Init.antt =====
-- cli/src/main.rs over service/backend.rs: `jj cultivate init`.
use cultivate.Common.{
  ◌≡◌, true, false, none, some, [], ◌∷◌, ◌++◌, Bytes, bytes_key, bytes_eq, length, replicate, ok,
}
use cultivate.HashMap
use cultivate.ContentHash.{Blake3}
use cultivate.Mount
use cultivate.Mount.{Mount}
use cultivate.Daemon.{Daemon, Platform, Status}
use cultivate.Daemon.Locks.{mounts_lock, fuse_sessions_lock, op_id_lock, workspace_id_lock}
use cultivate.Service
use cultivate.Service.{Prost}
use cultivate.Service.Checkout.{IsUsable, with_checkout}
use cultivate.Jj.{Merges}
use cultivate.Client
use cultivate.Client.Served.{daemon}
use cultivate.Backend
use cultivate.Backend.{Backend, commit_id_length, change_id_length}
use cultivate.WorkingCopy.{WorkingCopy, empty_cells, operation_id, workspace_id}
use cultivate.Client.{Server}
use cultivate.Cli.{Machine, Workspaces, default_workspace_id}

-- A directory that the daemon can mount at: none is mounted there, no lock on the way is poisoned, and
-- the operating system takes the mount.
pub record IsMountable (platform : Platform) (path : Bytes) (s : Daemon) : Type 0 where
  pub free : s.mounts path ≡ none
  pub directory : platform.is_dir path ≡ true
  pub starts : platform.session_starts path ≡ true
  pub mounts : s.poisoned mounts_lock ≡ false
  pub sessions : s.poisoned fuse_sessions_lock ≡ false
  pub op_id : s.poisoned (op_id_lock path) ≡ false
  pub workspace_id : s.poisoned (workspace_id_lock path) ≡ false

-- A daemon with a new mount.
abbrev pub with_mount : Bytes → Daemon → Daemon
with_mount path s = record s {
  mounts = HashMap.insert path (Mount.new s.store 0) s.mounts;
  fuse_sessions = s.fuse_sessions ++ record { mountpoint = path; next_file_handle = 1 } ∷ [];
}

-- The backend that jj makes with the daemon.
abbrev pub made_backend : Daemon → Backend
made_backend s = record {
  root_commit_id = replicate commit_id_length 0;
  root_change_id = replicate change_id_length 0;
  empty_tree_id = s.store.empty_tree_id;
}

-- A copy with the checkout state of a new repo in its cell.
abbrev pub asked : {ms : Merges} → Bytes → Bytes → WorkingCopy ms
asked path op_id = record (empty_cells path) {
  checkout_state = some (record { operation_id = op_id; workspace_id = default_workspace_id });
}

-- A mount with the checkout state of a new repo.
abbrev pub mount_of : Mount → Bytes → Mount
mount_of m op_id = with_checkout (record { op_id = op_id; workspace_id = default_workspace_id }) m

module _ (b : Blake3) (prost : Prost) (platform : Platform) (lost : Status) (ms : Merges) where
  -- In a working copy that can be used, creating a repo succeeds with an operation id of 64 bytes. What
  -- jj writes into the working copy goes to its mount, so that this may be any after it; it still can be
  -- used, and the other mounts are as they were.
  abbrev pub CreatesRepos : Workspaces (daemon b prost platform) ms Status → Bytes → Type 0
  CreatesRepos jj path =
      (backend : Backend) (m : Mount) (s : Daemon)
      → IsUsable path m s
      → (op_id : Bytes) × (n : Mount) × (t : Daemon) × (jj.create_repo backend s ≡ (ok op_id, t))
        × (length op_id ≡ 64)
        × IsUsable path n t
        × ((q : Bytes) → bytes_eq path q ≡ false → t.mounts q ≡ s.mounts q)

  module _ (jj : Workspaces (daemon b prost platform) ms Status) (machine : Machine Status)
      (s : Daemon) where
    abbrev server : Server
    server = daemon b prost platform
