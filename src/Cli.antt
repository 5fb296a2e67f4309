-- ===== src/Cli.antt =====
-- cli/src/main.rs: the program `jj` with the subcommand `cultivate`.
--
-- A command runs on the state of the daemon behind the client; `connects` says whether `connect` reaches
-- a daemon. Of the machine and of jj it knows the record `Machine`, and jj's workspaces are the record
-- `Workspaces`. Reading the arguments and jj's own commands are jj's.
pub mod Init
use cultivate.Common.{
  Bool, true, false, Option, none, some, [], ◌∷◌, Bytes, bytes_key, bytes_eq, from_utf8, ◌≡◌,
  Outcome, ok, err, panic, Run, pure, throw, abort, assert, unwrap, ◌>>=◌, ◌>>◌,
}
use cultivate.HashMap
use cultivate.HashMap.{HashMap}
use cultivate.Daemon.{Status}
use cultivate.Jj.{Merges}
use cultivate.Client
use cultivate.Client.{Server, unwrap_reply}
use cultivate.Backend
use cultivate.Backend.{Backend, BackendError}
use cultivate.WorkingCopy
use cultivate.WorkingCopy.{WorkingCopy, init_working_copy, load_working_copy}

pub data CultivateCommands : Type 0 where
  init status : CultivateCommands

-- What the command asks the machine and jj's settings: the current directory, whether
-- `set_current_dir` of it succeeds (the first time and the second), and the error of making a signer.
pub record Machine (E : Type 0) : Type 0 where
  pub cwd : Bytes
  pub enters : Bool
  pub enters_again : Bool
  pub sign_init : Option E

-- "default"
abbrev pub default_workspace_id : Bytes
default_workspace_id = b'd' ∷ b'e' ∷ b'f' ∷ b'a' ∷ b'u' ∷ b'l' ∷ b't' ∷ []

-- An error of another type.
abbrev pub map_err : {S E F A : Type 0} → (E → F) → Outcome E A × S → Outcome F A × S
map_err f (ok a, s) = (ok a, s)
map_err f (err e, s) = (err (f e), s)
map_err f (panic, s) = (panic, s)

-- A panic in place of an error.
abbrev or_panic : {S E A : Type 0} → Outcome E A × S → Outcome E A × S
or_panic (ok a, s) = (ok a, s)
or_panic (err e, s) = (panic, s)
or_panic (panic, s) = (panic, s)

module _ (server : Server) (ms : Merges) (E : Type 0) where
  abbrev pub C : Type 0 → Type 0
  C A = Run server.State E A

  -- An initializer of a working copy: from the path, the state's path, the operation and the workspace.
  abbrev pub CopyInitializer : Type 0
  CopyInitializer = Bytes → Bytes → Bytes → Bytes → C (WorkingCopy ms)

  -- jj's `Workspace::init_with_factories`. It makes the backend, with it the repo, whose first operation
  -- has an id, and then the working copy at that operation.
  pub record Workspaces : Type 0 where
    pub backend_failed : BackendError → E
    pub state_path : Bytes → Bytes
    pub create_repo : Backend → C Bytes
    pub init_with_factories : Bytes → C Backend → CopyInitializer → Bytes → C (Unit {0})
    pub init_with_factories-steps :
        (path : Bytes) (make_backend : C Backend) (make_copy : CopyInitializer)
        (workspace_id : Bytes) (s : server.State)
        → init_with_factories path make_backend make_copy workspace_id s
          ≡ (do
            backend ← make_backend
            operation_id ← create_repo backend
            make_copy path (state_path path) operation_id workspace_id
            pure tt)
              s

module _ (server : Server) (lost : Status) (ms : Merges) (connects : Bool) where
  -- What jj makes a backend with, by the name in the repo: the maker's error is unwrapped.
  unfoldable pub create_store_factories : HashMap Bytes (Run server.State BackendError Backend)
  unfolding Backend.new
  create_store_factories =
      HashMap.insert Backend.name (λ s. or_panic (Backend.new server lost connects s)) HashMap.empty

  -- `LocalWorkingCopyFactory`, which nothing uses, is jj's.
  pub record WorkingCopyFactory (E : Type 0) : Type 0 where
    pub init_working_copy : CopyInitializer server ms E
    pub load_working_copy : Bytes → Bytes → Run server.State E (WorkingCopy ms)

  unfoldable pub cultivate_working_copy_factory : {E : Type 0} → WorkingCopyFactory E
  unfolding init_working_copy load_working_copy
  cultivate_working_copy_factory = record {
    init_working_copy = init_working_copy server lost ms connects;
    load_working_copy = load_working_copy server lost ms connects;
  }

  -- `main` registers the factory under the name of the working copy.
  unfoldable pub working_copy_factories : {E : Type 0} → HashMap Bytes (WorkingCopyFactory E)
  unfolding cultivate_working_copy_factory
  working_copy_factories =
      HashMap.insert WorkingCopy.name cultivate_working_copy_factory HashMap.empty

  module _ {E : Type 0} (jj : Workspaces server ms E) (machine : Machine E) where
    abbrev signer : Option E → Run server.State E (Unit {0})
    signer none = pure tt
    signer (some e) = throw e

    -- The filesystem is mounted before jj writes, or there would be writes to the disk and to the mount.
    unfoldable pub run_cultivate_command : CultivateCommands → Run server.State E (Unit {0})
    unfolding Client.initialize Backend.new init_working_copy cultivate_working_copy_factory
    run_cultivate_command status = abort
    run_cultivate_command init = do
      assert connects
      path ← unwrap (from_utf8 machine.cwd)
      unwrap_reply (Client.initialize server lost (record { path = path }))
      assert machine.enters
      signer machine.sign_init
      jj.init_with_factories machine.cwd
          (λ s. map_err jj.backend_failed (Backend.new server lost connects s))
          (init_working_copy server lost ms connects) default_workspace_id
      assert machine.enters_again
      pure tt
