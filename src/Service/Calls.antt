-- ===== src/Service/Calls.antt =====
-- service/backend.rs: any calls of the service, one after the other.
use cultivate.Common.{◌≡◌, refl, Option, none, some, List, [], ◌∷◌, Bytes, pure, ◌>>◌}
use cultivate.Proto
use cultivate.ContentHash.{Blake3}
use cultivate.Daemon.{Daemon, D, Platform}
use cultivate.Daemon.Grows.{
  Within, Grows, Grows-refl, Grows-trans, Growing, Growing-abort, Growing-pure, Growing-bind,
  Growing-gets,
}
use cultivate.HashMap.{HashMap}
use cultivate.Service
use cultivate.Service.{Prost}
use cultivate.Service.Growing.{
  get_tree_state-Growing, get_checkout_state-Growing, set_checkout_state-Growing, snapshot-Growing,
  read_file-Growing, read_symlink-Growing, read_tree-Growing, read_commit-Growing,
  write_file-Growing, write_symlink-Growing, write_tree-Growing, write_commit-Growing,
  initialize-Growing,
}

-- One call with its message.
pub data Call : Type 0 where
  initialize : Proto.InitializeReq → Call
  get_tree_state : Proto.GetTreeStateReq → Call
  get_checkout_state : Proto.GetCheckoutStateReq → Call
  set_checkout_state : Proto.SetCheckoutStateReq → Call
  snapshot : Proto.SnapshotReq → Call
  get_empty_tree_id concurrency : Call
  write_file : Proto.File → Call
  read_file : Proto.FileId → Call
  write_symlink : Proto.Symlink → Call
  read_symlink : Proto.SymlinkId → Call
  write_tree : Proto.Tree → Call
  read_tree : Proto.TreeId → Call
  write_commit : Proto.Commit → Call
  read_commit : Proto.CommitId → Call

-- Where there was something, there is something.
abbrev pub Stays : {A : Type 0} → Option A → Option A → Type 0
Stays none now = Unit {0}
Stays {A} (some was) now = (is : A) × (now ≡ some is)

pub Within-Stays :
    {A : Type 0} {m n : HashMap Bytes A} → Within m n → (k : Bytes) → Stays (m k) (n k)
Within-Stays {A} {m} {n} within k = at (m k) refl
  where
    at : (o : Option A) → m k ≡ o → Stays o (n k)
    at none found = tt
    at (some v) found = within k v found

-- The reply is dropped.
abbrev quietly : {A : Type 0} → D A → D (Unit {0})
quietly m = do m; pure tt

module _ (b : Blake3) (prost : Prost) (platform : Platform) where
  unfoldable pub serve : Call → D (Unit {0})
  serve (initialize req) = quietly (Service.initialize platform req)
  serve (get_tree_state req) = quietly (Service.get_tree_state req)
  serve (get_checkout_state req) = quietly (Service.get_checkout_state req)
  serve (set_checkout_state req) = quietly (Service.set_checkout_state req)
  serve (snapshot req) = quietly (Service.snapshot req)
  serve get_empty_tree_id = quietly Service.get_empty_tree_id
  serve concurrency = quietly Service.concurrency
  serve (write_file file) = quietly (Service.write_file b prost file)
  serve (read_file req) = quietly (Service.read_file req)
  serve (write_symlink symlink) = quietly (Service.write_symlink b prost symlink)
  serve (read_symlink req) = quietly (Service.read_symlink req)
  serve (write_tree tree) = quietly (Service.write_tree b prost tree)
  serve (read_tree req) = quietly (Service.read_tree req)
  serve (write_commit commit) = quietly (Service.write_commit b prost commit)
  serve (read_commit req) = quietly (Service.read_commit req)

  quietly-Growing : {A : Type 0} (m : D A) → Growing m → Growing (quietly m)
  quietly-Growing m g = Growing-bind _ _ g λ _. Growing-pure _

  pub serve-Growing : (c : Call) → Growing (serve c)
  unfolding serve Service.get_empty_tree_id Service.concurrency
  serve-Growing (initialize req) = quietly-Growing _ (initialize-Growing platform req)
  serve-Growing (get_tree_state req) = quietly-Growing _ (get_tree_state-Growing req)
  serve-Growing (get_checkout_state req) = quietly-Growing _ (get_checkout_state-Growing req)
  serve-Growing (set_checkout_state req) = quietly-Growing _ (set_checkout_state-Growing req)
  serve-Growing (snapshot req) = quietly-Growing _ (snapshot-Growing req)
  serve-Growing get_empty_tree_id =
      quietly-Growing _ (Growing-bind _ _ (Growing-gets _) λ _. Growing-pure _)
  serve-Growing concurrency = quietly-Growing _ Growing-abort
  serve-Growing (write_file file) = quietly-Growing _ (write_file-Growing b prost file)
  serve-Growing (read_file req) = quietly-Growing _ (read_file-Growing req)
  serve-Growing (write_symlink symlink) = quietly-Growing _ (write_symlink-Growing b prost symlink)
  serve-Growing (read_symlink req) = quietly-Growing _ (read_symlink-Growing req)
  serve-Growing (write_tree tree) = quietly-Growing _ (write_tree-Growing b prost tree)
  serve-Growing (read_tree req) = quietly-Growing _ (read_tree-Growing req)
  serve-Growing (write_commit commit) = quietly-Growing _ (write_commit-Growing b prost commit)
  serve-Growing (read_commit req) = quietly-Growing _ (read_commit-Growing req)

  -- A task that fails leaves its state to the next.
  unfoldable pub run : List Call → Daemon → Daemon
  unfolding serve
  run [] s = s
  run (c ∷ cs) s = run cs (serve c s).1

  pub run-Grows : (cs : List Call) (s : Daemon) → Grows s (run cs s)
  unfolding run
  run-Grows [] s = Grows-refl s
  run-Grows (c ∷ cs) s = Grows-trans ((serve-Growing c).at s) (run-Grows cs (serve c s).1)
