-- ===== src/WorkingCopy.antt =====
-- cli/src/working_copy.rs, first part: `CultivateWorkingCopy`, jj's working copy whose state a daemon
-- keeps.
--
-- A method runs on the copy and the daemon behind its client. The copy's `OnceCell`s are options that
-- `get_or_init` fills. `connects` says whether `connect` reaches a daemon. No method returns an error
-- of jj's, so the type of errors is any. The daemon's lock, which locks nothing, is left out.
pub mod Locked
pub mod Cells
pub mod Fresh
use cultivate.Common.{
  Bool, true, false, Option, none, some, List, [], ◌∷◌, Bytes, from_utf8, Outcome, ok, err, panic,
  Run, pure, abort, assert, unwrap, gets, ◌>>=◌, ◌>>◌,
}
use cultivate.Proto
use cultivate.Daemon.{Status}
use cultivate.Jj.{Merges, MergedTreeId, merge}
use cultivate.Client
use cultivate.Client.{Server, unwrap_reply}

pub record CheckoutState : Type 0 where
  pub operation_id : Bytes
  pub workspace_id : Bytes

pub record TreeState (ms : Merges) : Type 0 where
  pub tree_id : MergedTreeId ms

unfoldable pub current_tree_id : {ms : Merges} → TreeState ms → MergedTreeId ms
current_tree_id state = state.tree_id

-- `CultivateWorkingCopy` without its client and jj's store
pub record WorkingCopy (ms : Merges) : Type 0 where
  pub working_copy_path : Bytes
  pub checkout_state : Option CheckoutState
  pub tree_state : Option (TreeState ms)

-- a copy and the daemon behind it
pub record Attached (ms : Merges) (State : Type 0) : Type 0 where
  pub copy : WorkingCopy ms
  pub daemon : State

-- "cultivate"
abbrev pub name : Bytes
name = b'c' ∷ b'u' ∷ b'l' ∷ b't' ∷ b'i' ∷ b'v' ∷ b'a' ∷ b't' ∷ b'e' ∷ []

abbrev pub path : {ms : Merges} → WorkingCopy ms → Bytes
path copy = copy.working_copy_path

abbrev pub empty_cells : {ms : Merges} → Bytes → WorkingCopy ms
empty_cells path = record { working_copy_path = path; checkout_state = none; tree_state = none }

module _ {P E A : Type 0} where
  -- `OnceCell::get_or_init`: the cell stays empty where making its value panics.
  abbrev pub stored : (A → P → P) → Outcome E A × P → Outcome E A × P
  stored fill (ok a, p) = (ok a, fill a p)
  stored fill (err e, p) = (err e, p)
  stored fill (panic, p) = (panic, p)

  abbrev pub get_or_init : Option A → (A → P → P) → Run P E A → Run P E A
  get_or_init (some a) fill make p = (ok a, p)
  get_or_init none fill make p = stored fill (make p)

module _ (server : Server) (lost : Status) (ms : Merges) where
  abbrev pub W : Type 0 → Type 0 → Type 0
  W E A = Run (Attached ms server.State) E A

  -- A run that touches the daemon only.
  abbrev pub on_daemon : {E A : Type 0} → Run server.State E A → W E A
  on_daemon call p = let (r, s) = call p.daemon in (r, record p { daemon = s })

  -- A run on another copy.
  abbrev pub on_copy : {E A : Type 0} → WorkingCopy ms → W E A → Run server.State E A
  on_copy copy call s = let (r, p) = call (record { copy = copy; daemon = s }) in (r, p.daemon)

  unfoldable pub init :
      {E : Type 0} → Bool → Bytes → Bytes → Bytes → Run server.State E (WorkingCopy ms)
  unfolding Client.set_checkout_state
  init connects working_copy_path operation_id workspace_id = do
    assert connects
    path ← unwrap (from_utf8 working_copy_path)
    unwrap_reply (
        Client.set_checkout_state server lost (record {
          working_copy_path = path;
          checkout_state = some (record { op_id = operation_id; workspace_id = workspace_id });
        }))
    pure (empty_cells working_copy_path)

  unfoldable pub load : {E : Type 0} → Bool → Bytes → Run server.State E (WorkingCopy ms)
  load connects working_copy_path = do assert connects; pure (empty_cells working_copy_path)

  -- the factory's methods, which have no use for the state path
  unfoldable pub init_working_copy :
      {E : Type 0} → Bool → Bytes → Bytes → Bytes → Bytes → Run server.State E (WorkingCopy ms)
  unfolding init
  init_working_copy connects working_copy_path state_path operation_id workspace_id =
      init connects working_copy_path operation_id workspace_id

  unfoldable pub load_working_copy :
      {E : Type 0} → Bool → Bytes → Bytes → Run server.State E (WorkingCopy ms)
  unfolding load
  load_working_copy connects working_copy_path state_path = load connects working_copy_path

  abbrev pub path_as_str : {E : Type 0} → W E Bytes
  path_as_str = do p ← gets (λ p. p.copy.working_copy_path); unwrap (from_utf8 p)

  abbrev pub one_tree : {E : Type 0} → Bytes → W E (TreeState ms)
  one_tree tree_id = do
    built ← unwrap (ms.build (tree_id ∷ []))
    pure (record { tree_id = merge built })

  abbrev pub ask_tree_state : {E : Type 0} → W E (TreeState ms)
  ask_tree_state = do
    path ← path_as_str
    reply ←
        on_daemon
          (unwrap_reply (Client.get_tree_state server lost (record { working_copy_path = path })))
    one_tree reply.tree_id

  abbrev pub ask_checkout_state : {E : Type 0} → W E CheckoutState
  ask_checkout_state = do
    path ← path_as_str
    reply ←
        on_daemon (
          unwrap_reply
            (Client.get_checkout_state server lost (record { working_copy_path = path })))
    workspace_id ← unwrap (from_utf8 reply.workspace_id)
    pure (record { operation_id = reply.op_id; workspace_id = workspace_id })

  unfoldable pub get_tree_state : {E : Type 0} → W E (TreeState ms)
  unfolding Client.get_tree_state
  get_tree_state p =
      get_or_init p.copy.tree_state
        (λ v p. record p { copy = record p.copy { tree_state = some v } }) ask_tree_state p

  unfoldable pub get_checkout_state : {E : Type 0} → W E CheckoutState
  unfolding Client.get_checkout_state
  get_checkout_state p =
      get_or_init p.copy.checkout_state
        (λ v p. record p { copy = record p.copy { checkout_state = some v } }) ask_checkout_state p

  -- It leaves the cells as they are.
  unfoldable pub snapshot : {E : Type 0} → W E (TreeState ms)
  unfolding Client.snapshot
  snapshot = do
    path ← path_as_str
    reply ←
        on_daemon (unwrap_reply (Client.snapshot server lost (record { working_copy_path = path })))
    one_tree reply.tree_id

  unfoldable pub workspace_id : {E : Type 0} → W E Bytes
  unfolding get_checkout_state
  workspace_id = do state ← get_checkout_state; pure state.workspace_id

  unfoldable pub operation_id : {E : Type 0} → W E Bytes
  unfolding get_checkout_state
  operation_id = do state ← get_checkout_state; pure state.operation_id

  unfoldable pub tree_id : {E : Type 0} → W E (MergedTreeId ms)
  unfolding get_tree_state current_tree_id
  tree_id = do state ← get_tree_state; pure (current_tree_id state)

  -- `todo!`
  unfoldable pub sparse_patterns : {E : Type 0} → W E (List Bytes)
  sparse_patterns = abort
