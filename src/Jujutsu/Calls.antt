-- ===== src/Jujutsu/Calls.antt =====
-- What a client of the new daemon meets.
use cultivate.Common.{◌≡◌, refl, Bool, true, false, err, panic, ◌>>=◌}
use cultivate.Proto
use cultivate.ContentHash.{Blake3}
use cultivate.Daemon.{Status}
use cultivate.Service.{Prost}
use cultivate.Client
use cultivate.Backend
use cultivate.Backend.{Backend, BackendError}
use cultivate.Jujutsu.{JujutsuService, daemon, get_empty_tree_id, initialize}

module _ (b : Blake3) (prost : Prost) (lost : Status) (s : JujutsuService) where
  -- A client of the new daemon cannot mount anything: the call gives the status of a lost call.
  pub initialize_lost :
      (request : Proto.InitializeReq)
      → Client.initialize (daemon b prost) lost request s ≡ (err lost, s)
  unfolding Client.initialize initialize
  initialize_lost request = refl

  -- jj's backend does not start on the new daemon, whether the client reaches it or not.
  pub backend_panics : (connects : Bool) → Backend.new (daemon b prost) lost connects s ≡ (panic, s)
  unfolding Backend.new Client.get_empty_tree_id get_empty_tree_id ◌>>=◌
  backend_panics true = refl
  backend_panics false = refl
