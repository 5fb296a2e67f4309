-- ===== src/Tests/Services.antt =====
-- The daemon's service at concrete inputs.
use cultivate.Common.{
  ◌≡◌, refl, true, false, if◌then◌else◌, Option, none, some, List, [], ◌∷◌, Bytes, bytes_eq,
  replicate, ok, panic,
}
use cultivate.Proto
use cultivate.Daemon.{Daemon}
use cultivate.Service.{
  initialize, get_tree_state, get_checkout_state, set_checkout_state, snapshot, read_file,
  write_file,
}
use cultivate.Service.Checkout.{IsUsable, CheckedOut, set_checkout_state-CheckedOut}
use cultivate.Service.Calls.{Call, run}
use cultivate.Service.Poison.{read_file-lost, initialize-lost, get_checkout_state-lost}
use cultivate.Tests.Samples.{sample_hash}
use cultivate.Tests.Daemons.{sample_prost, willing, home, sample_mount, sample_daemon}

abbrev pub sample_checkout : Proto.CheckoutState
sample_checkout = record { op_id = replicate 64 7; workspace_id = b'd' ∷ [] }

pub sample_daemon-IsUsable : IsUsable home sample_mount sample_daemon
unfolding bytes_eq
sample_daemon-IsUsable = record { found = refl; mounts = refl; op_id = refl; workspace_id = refl }

set_checkout_state-CheckedOut_example :
    (t : Daemon) × (set_checkout_state
        (record { working_copy_path = home; checkout_state = some sample_checkout })
        sample_daemon
      ≡ (ok (record {}), t))
    × CheckedOut home sample_mount sample_checkout sample_daemon t
unfolding cultivate.Common.is_utf8
set_checkout_state-CheckedOut_example =
    set_checkout_state-CheckedOut home sample_mount sample_checkout sample_daemon
      sample_daemon-IsUsable refl refl

abbrev nothing : Proto.FileId
nothing = record { file_id = [] }

abbrev small : Proto.File
small = record { «data» = b'x' ∷ [] }

read_file-lost_example :
    ((read_file nothing sample_daemon).0 ≡ panic)
    × (read_file nothing
          (run sample_hash sample_prost willing (Call.read_file nothing ∷ []) sample_daemon)
        ≡ (panic, run sample_hash sample_prost willing (Call.read_file nothing ∷ []) sample_daemon))
    × (write_file sample_hash sample_prost small
          (run sample_hash sample_prost willing (Call.read_file nothing ∷ []) sample_daemon)
        ≡ (panic, run sample_hash sample_prost willing (Call.read_file nothing ∷ []) sample_daemon))
read_file-lost_example =
    read_file-lost sample_hash sample_prost willing nothing [] nothing small sample_daemon refl

abbrev set_sample : Proto.SetCheckoutStateReq
set_sample = record { working_copy_path = home; checkout_state = some sample_checkout }

initialize-lost_example :
    (t : Daemon) × (t
      ≡ run sample_hash sample_prost willing
          (Call.initialize (record { path = home }) ∷ [])
          sample_daemon)
    × ((initialize willing (record { path = home }) sample_daemon).0 ≡ panic)
    × ((get_tree_state (record { working_copy_path = home }) t).0 ≡ panic)
    × ((get_checkout_state (record { working_copy_path = home }) t).0 ≡ panic)
    × ((snapshot (record { working_copy_path = home }) t).0 ≡ panic)
    × ((set_checkout_state set_sample t).0 ≡ panic)
    × ((initialize willing (record { path = home }) t).0 ≡ panic)
initialize-lost_example =
    initialize-lost sample_hash sample_prost willing home sample_mount [] set_sample home
      sample_daemon sample_daemon-IsUsable.found

get_checkout_state-lost_example :
    (t : Daemon) × (t
      ≡ run sample_hash sample_prost willing
          (Call.get_checkout_state (record { working_copy_path = home }) ∷ [])
          sample_daemon)
    × ((get_checkout_state (record { working_copy_path = home }) sample_daemon).0 ≡ panic)
    × ((get_checkout_state (record { working_copy_path = home }) t).0 ≡ panic)
    × ((set_checkout_state set_sample t).0 ≡ panic)
get_checkout_state-lost_example =
    get_checkout_state-lost sample_hash sample_prost willing home sample_mount []
      (some sample_checkout) sample_daemon sample_daemon-IsUsable.found refl refl
