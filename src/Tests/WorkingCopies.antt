-- ===== src/Tests/WorkingCopies.antt =====
-- The working copy over the daemon at concrete inputs.
use cultivate.Common.{
  ℕ, ◌≡◌, ◌≢◌, refl, true, false, if◌then◌else◌, Option, none, some, List, [], ◌∷◌, Bytes, bytes_eq,
  bytes_key, replicate, ok, pos, ◌>>=◌, arith,
}
use cultivate.HashMap
use cultivate.Proto
use cultivate.Mount.{Mount}
use cultivate.Daemon.{Daemon, Status}
use cultivate.Service.Checkout.{with_checkout}
use cultivate.Jj.{merge}
use cultivate.WorkingCopy.{
  CheckoutState, TreeState, WorkingCopy, Attached, init, get_checkout_state, get_tree_state,
  operation_id, workspace_id,
}
use cultivate.WorkingCopy.Locked.{start_mutation, finish}
use cultivate.WorkingCopy.Cells.{cells_stay}
use cultivate.WorkingCopy.Fresh.{
  Keeps, ask_checkout_state_lem, ask_tree_state_lem, filled, operation_id-init,
  start_mutation-current, finish-forgets,
}
use cultivate.Tests.Samples.{sample_hash}
use cultivate.Tests.Daemons.{
  sample_prost, willing, no_answer, sample_server, home, sample_mount, sample_daemon, list_merges,
}
use cultivate.Tests.Services.{sample_daemon-IsUsable}

abbrev sample_state : CheckoutState
sample_state = record { operation_id = replicate 64 7; workspace_id = b'd' ∷ [] }

abbrev sent : Proto.CheckoutState
sent = record { op_id = replicate 64 7; workspace_id = b'd' ∷ [] }

abbrev empty_copy : WorkingCopy list_merges
empty_copy = record { working_copy_path = home; checkout_state = none; tree_state = none }

operation_id-init_example :
    (t : Daemon) × (init sample_server no_answer list_merges {E = Status} true home
        sample_state.operation_id sample_state.workspace_id sample_daemon
      ≡ (ok empty_copy, t))
    × (operation_id sample_server no_answer list_merges {E = Status}
          (record { copy = empty_copy; daemon = t })
        ≡ (
          ok sample_state.operation_id,
          record { copy = record empty_copy { checkout_state = some sample_state }; daemon = t },
        ))
    × (workspace_id sample_server no_answer list_merges {E = Status}
          (record { copy = record empty_copy { checkout_state = some sample_state }; daemon = t })
        ≡ (
          ok sample_state.workspace_id,
          record { copy = record empty_copy { checkout_state = some sample_state }; daemon = t },
        ))
    × ((q : Bytes)
        → t.mounts q ≡ (
            if bytes_eq home q
            then some (with_checkout sent sample_mount)
            else sample_daemon.mounts q))
    × (t.store ≡ sample_daemon.store)
unfolding cultivate.Common.is_utf8
operation_id-init_example =
    operation_id-init sample_hash sample_prost willing no_answer list_merges home sample_mount
      sample_state sample_daemon sample_daemon-IsUsable refl refl refl

-- The daemon after another client has set the checkout state.
abbrev set_mount : Mount
set_mount = with_checkout sent sample_mount

abbrev set_daemon : Daemon
set_daemon = record sample_daemon { mounts = HashMap.insert home set_mount HashMap.empty }

set_daemon-Keeps : Keeps home set_mount sample_state set_daemon
unfolding cultivate.Common.is_utf8 bytes_eq
set_daemon-Keeps = record {
  usable = record { found = refl; mounts = refl; op_id = refl; workspace_id = refl };
  op_id = refl;
  workspace_id = refl;
  path_text = refl;
  workspace_text = refl;
}

-- A copy that still has the ids from before.
abbrev old_copy : WorkingCopy list_merges
old_copy = record empty_copy {
  checkout_state = some (record { operation_id = replicate 64 3; workspace_id = b'd' ∷ [] });
}

start_mutation-current_example :
    start_mutation sample_server no_answer list_merges {E = Status} old_copy set_daemon ≡ (
      ok (record {
        wc =
            filled sample_hash sample_prost willing no_answer list_merges home sample_state
              (set_mount.tree_id ∷ []);
        old_operation_id = sample_state.operation_id;
        old_tree_id = merge (set_mount.tree_id ∷ []);
      }),
      set_daemon,
    )
start_mutation-current_example =
    start_mutation-current sample_hash sample_prost willing no_answer list_merges old_copy set_mount
      sample_state (set_mount.tree_id ∷ []) set_daemon set_daemon-Keeps refl

finish-forgets_example :
    (wc : WorkingCopy list_merges) × ((do
      locked ← start_mutation sample_server no_answer list_merges {E = Status} old_copy
      finish sample_server no_answer list_merges (replicate 64 8) locked)
        set_daemon
      ≡ (ok wc, set_daemon))
    × (operation_id sample_server no_answer list_merges {E = Status}
          (record { copy = wc; daemon = set_daemon })
        ≡ (ok sample_state.operation_id, record { copy = wc; daemon = set_daemon }))
    × ((operation_id sample_server no_answer list_merges {E = Status}
          (record { copy = empty_copy; daemon = set_daemon })).0
        ≡ ok sample_state.operation_id)
finish-forgets_example =
    finish-forgets sample_hash sample_prost willing no_answer list_merges old_copy set_mount
      sample_state (set_mount.tree_id ∷ []) (replicate 64 8) set_daemon set_daemon-Keeps refl

-- A copy behind the daemon, before and after its two cells are filled.
abbrev at_first : Attached list_merges Daemon
at_first = record { copy = empty_copy; daemon = set_daemon }

abbrev then_state : Attached list_merges Daemon
then_state = record {
  copy = record empty_copy { checkout_state = some sample_state };
  daemon = set_daemon;
}

abbrev sample_tree_state : TreeState list_merges
sample_tree_state = record { tree_id = merge (set_mount.tree_id ∷ []) }

abbrev both_full : WorkingCopy list_merges
both_full = record empty_copy {
  checkout_state = some sample_state;
  tree_state = some sample_tree_state;
}

first_asked :
    (get_checkout_state sample_server no_answer list_merges {E = Status} at_first
      ≡ (ok sample_state, then_state))
    × (get_tree_state sample_server no_answer list_merges {E = Status} then_state
        ≡ (ok sample_tree_state, record { copy = both_full; daemon = set_daemon }))
unfolding get_checkout_state get_tree_state
first_asked = (
  rw
      (ask_checkout_state_lem sample_hash sample_prost willing no_answer list_merges at_first
        set_mount sample_state set_daemon-Keeps)
      refl,
  rw
      (ask_tree_state_lem sample_hash sample_prost willing no_answer list_merges then_state
        set_mount sample_state (set_mount.tree_id ∷ []) set_daemon-Keeps refl)
      refl,
)

cells_stay_example :
    (get_checkout_state sample_server no_answer list_merges {E = Status}
        (record { copy = both_full; daemon = sample_daemon })
      ≡ (ok sample_state, record { copy = both_full; daemon = sample_daemon }))
    × (get_tree_state sample_server no_answer list_merges {E = Status}
          (record { copy = both_full; daemon = sample_daemon })
        ≡ (ok sample_tree_state, record { copy = both_full; daemon = sample_daemon }))
cells_stay_example =
    cells_stay sample_server no_answer list_merges at_first then_state
      (record { copy = both_full; daemon = set_daemon }) sample_state sample_tree_state
      sample_daemon first_asked.0 first_asked.1
