-- ===== src/Service/Poison.antt =====
-- service/backend.rs: panics under a lock, and what they do to the calls that come after.
use cultivate.Common.{
  Run, ◌≡◌, refl, ap, ◌∙◌, true, false, Option, none, some, List, ◌∷◌, Bytes, Outcome, ok, err,
  panic, pure, unwrap, gets, ◌>>=◌, continue, Bool-cases, Option-cases, inl, inr,
}
use cultivate.Proto
use cultivate.ContentHash.{Blake3}
use cultivate.Mount
use cultivate.Mount.{Mount}
use cultivate.Daemon.{Daemon, D, Status, Platform, initialize_repo, get, with_lock, on_mount}
use cultivate.Daemon.Locks.{Lock, files_lock, mounts_lock, op_id_lock, lock_eq_refl}
use cultivate.Service.{
  Prost, get_mount, initialize, get_tree_state, get_checkout_state, set_checkout_state, snapshot,
  read_file, write_file,
}
use cultivate.Service.Runs.{get_mount_ok}
use cultivate.Service.Calls.{Call, run, serve, run-Grows}

pub with_lock_poisoned :
    {E A : Type 0} (l : Lock) (m : Run Daemon E A) (s : Daemon)
    → s.poisoned l ≡ true
    → with_lock l m s ≡ (panic, s)
unfolding with_lock
with_lock_poisoned l m s h = rw h refl

-- A panic under a lock that is free poisons it; where it is poisoned, it stays so.
pub with_lock_panic :
    {E A : Type 0} (l : Lock) (m : Run Daemon E A) (s : Daemon)
    → (m s).0 ≡ panic
    → ((with_lock l m s).0 ≡ panic) × ((with_lock l m s).1.poisoned l ≡ true)
unfolding with_lock
with_lock_panic l m s h = elim (Bool-cases (s.poisoned l)) [
  | inl lost ↦ rw lost (refl, lost)
  | inr free ↦ rw (free, h) (refl, rw (lock_eq_refl l) refl)
]

module _ {A B : Type 0} (b : B) where
  continue-pure : (r : Outcome Status A) (s : Daemon) → (continue r (λ _. pure b) s).1 ≡ s
  continue-pure (ok a) s = refl
  continue-pure (err e) s = refl
  continue-pure panic s = refl

  -- Dropping a reply changes no state.
  then_state : (m : D A) (s : Daemon) → ((m >>= λ _. pure b) s).1 ≡ (m s).1
  unfolding ◌>>=◌
  then_state m s = continue-pure (m s).0 (m s).1

read_file_missing :
    (id : Proto.FileId) (s : Daemon)
    → s.store.files id.file_id ≡ none
    → ((read_file id s).0 ≡ panic) × ((read_file id s).1.poisoned files_lock ≡ true)
unfolding read_file ◌>>=◌
read_file_missing id s missing = with_lock_panic files_lock _ s (rw missing refl)

initialize_repo_twice :
    (platform : Platform) (path : Bytes) (m : Mount) (s : Daemon)
    → s.mounts path ≡ some m
    → ((initialize_repo platform path s).0 ≡ panic)
      × ((initialize_repo platform path s).1.poisoned mounts_lock ≡ true)
unfolding initialize_repo ◌>>=◌
initialize_repo_twice platform path m s found = with_lock_panic mounts_lock _ s (rw found refl)

initialize_repo_poisoned :
    (platform : Platform) (path : Bytes) (s : Daemon)
    → s.poisoned mounts_lock ≡ true
    → initialize_repo platform path s ≡ (panic, s)
unfolding initialize_repo ◌>>=◌
initialize_repo_poisoned platform path s h = with_lock_poisoned mounts_lock _ s h

get_mount_poisoned :
    (path : Bytes) (s : Daemon) → s.poisoned mounts_lock ≡ true → get_mount path s ≡ (panic, s)
unfolding get_mount get ◌>>=◌
get_mount_poisoned path s h =
    rw (with_lock_poisoned mounts_lock (gets (λ s. s.mounts path)) s h) refl

module _ (b : Blake3) (prost : Prost) (platform : Platform) where
  -- Asking the service for a file that it does not have panics, and from then on, whatever calls are
  -- made in between, every request to read or to write a file panics and changes nothing.
  pub read_file-lost :
      (id : Proto.FileId) (cs : List Call) (req : Proto.FileId) (file : Proto.File) (s : Daemon)
      → s.store.files id.file_id ≡ none
      → ((read_file id s).0 ≡ panic)
        × (read_file req (run b prost platform (Call.read_file id ∷ cs) s)
            ≡ (panic, run b prost platform (Call.read_file id ∷ cs) s))
        × (write_file b prost file (run b prost platform (Call.read_file id ∷ cs) s)
            ≡ (panic, run b prost platform (Call.read_file id ∷ cs) s))
  unfolding run serve read_file write_file ◌>>=◌
  read_file-lost id cs req file s missing =
      let t = run b prost platform (Call.read_file id ∷ cs) s in
      let fails = read_file_missing id s missing in
      let lost : t.poisoned files_lock ≡ true =
        (run-Grows b prost platform cs _).poisoned files_lock
          (ap (λ (u : Daemon). u.poisoned files_lock) (then_state tt (read_file id) s) ∙ fails.1) in
      (
        fails.0,
        with_lock_poisoned files_lock _ t lost,
        rw (with_lock_poisoned files_lock _ t lost) refl,
      )

  -- Initializing a path that has a mount panics, and from then on, whatever calls are made in between,
  -- every request for the tree state, the checkout state or a snapshot of any working copy, every
  -- request to set a checkout state and every initialization panics.
  pub initialize-lost :
      (path : Bytes) (m : Mount) (cs : List Call) (req : Proto.SetCheckoutStateReq) (other : Bytes)
      (s : Daemon)
      → s.mounts path ≡ some m
      → (t : Daemon) × (t ≡ run b prost platform (Call.initialize (record { path = path }) ∷ cs) s)
        × ((initialize platform (record { path = path }) s).0 ≡ panic)
        × ((get_tree_state (record { working_copy_path = other }) t).0 ≡ panic)
        × ((get_checkout_state (record { working_copy_path = other }) t).0 ≡ panic)
        × ((snapshot (record { working_copy_path = other }) t).0 ≡ panic)
        × ((set_checkout_state req t).0 ≡ panic)
        × ((initialize platform (record { path = other }) t).0 ≡ panic)
  unfolding run serve initialize get_tree_state get_checkout_state snapshot set_checkout_state ◌>>=◌
  initialize-lost path m cs req other s found =
      let t = run b prost platform (Call.initialize (record { path = path }) ∷ cs) s in
      let fails = initialize_repo_twice platform path m s found in
      let lost : t.poisoned mounts_lock ≡ true =
        (run-Grows b prost platform cs _).poisoned mounts_lock (
          ap (λ (u : Daemon). u.poisoned mounts_lock)
            (then_state tt (initialize platform (record { path = path })) s
              ∙ then_state (record {}) (initialize_repo platform path) s)
          ∙ fails.1) in
      let no_mount = get_mount_poisoned other t lost in
      (
        t,
        refl,
        rw fails.0 refl,
        rw no_mount refl,
        rw no_mount refl,
        rw no_mount refl,
        rw (get_mount_poisoned req.working_copy_path t lost) refl,
        rw (initialize_repo_poisoned platform other t lost) refl,
      )

module _ {A : Type 0} where
  get_mount-then :
      (path : Bytes) (f : Unit {0} → D A) (s : Daemon)
      → (f tt s).0 ≡ panic
      → ((get_mount path >>= f) s).0 ≡ panic
  unfolding get_mount get with_lock ◌>>=◌
  get_mount-then path f s h = elim (Bool-cases (s.poisoned mounts_lock)) [
    | inl lost ↦ rw lost refl
    | inr free ↦ elim (Option-cases (s.mounts path)) [
      | inl missing ↦ rw (free, missing) refl
      | inr (m, found) ↦ rw (free, found) h
    ]
  ]

  unwrap-then :
      {B : Type 0} (o : Option B) (f : B → D A) (s : Daemon)
      → ((x : B) → (f x s).0 ≡ panic)
      → ((unwrap o >>= f) s).0 ≡ panic
  unfolding ◌>>=◌
  unwrap-then none f s h = refl
  unwrap-then (some x) f s h = h x

at_lock :
    {A B : Type 0} (l : Lock) (m : D A) (f : A → D B) (s : Daemon)
    → s.poisoned l ≡ true
    → ((with_lock l m >>= f) s).0 ≡ panic
unfolding ◌>>=◌
at_lock l m f s lost = rw (with_lock_poisoned l m s lost) refl

get_op_id_missing :
    (path : Bytes) (m : Mount) (s : Daemon)
    → s.mounts path ≡ some m
    → m.op_id ≡ none
    → (on_mount path (Mount.get_op_id {E = Status}) s).0 ≡ panic
unfolding on_mount Mount.get_op_id ◌>>=◌
get_op_id_missing path m s found unset = rw (found, unset) refl

get_checkout_state_unset :
    (path : Bytes) (m : Mount) (s : Daemon)
    → s.mounts path ≡ some m
    → m.op_id ≡ none
    → s.poisoned mounts_lock ≡ false
    → ((get_checkout_state (record { working_copy_path = path }) s).0 ≡ panic)
      × ((get_checkout_state (record { working_copy_path = path }) s).1.poisoned (op_id_lock path)
          ≡ true)
unfolding get_checkout_state ◌>>=◌
get_checkout_state_unset path m s found unset free =
    let op =
      with_lock_panic (op_id_lock path) (on_mount path Mount.get_op_id) s
        (get_op_id_missing path m s found unset) in
    rw (get_mount_ok path m s found free, op.0) (refl, op.1)

module _ (b : Blake3) (prost : Prost) (platform : Platform) where
  -- Asking for the checkout state of a working copy that has a mount and no operation id yet panics,
  -- if the map of mounts can be locked; and from then on, whatever calls are made in between, every
  -- request to get the checkout state of this working copy or to set it panics.
  pub get_checkout_state-lost :
      (path : Bytes) (m : Mount) (cs : List Call) (state : Option Proto.CheckoutState) (s : Daemon)
      → s.mounts path ≡ some m
      → m.op_id ≡ none
      → s.poisoned mounts_lock ≡ false
      → (t : Daemon) × (t
          ≡ run b prost platform
              (Call.get_checkout_state (record { working_copy_path = path }) ∷ cs)
              s)
        × ((get_checkout_state (record { working_copy_path = path }) s).0 ≡ panic)
        × ((get_checkout_state (record { working_copy_path = path }) t).0 ≡ panic)
        × ((set_checkout_state (record { working_copy_path = path; checkout_state = state }) t).0
            ≡ panic)
  unfolding run serve get_checkout_state set_checkout_state
  get_checkout_state-lost path m cs state s found unset free =
      let req : Proto.GetCheckoutStateReq = record { working_copy_path = path } in
      let t = run b prost platform (Call.get_checkout_state req ∷ cs) s in
      let fails = get_checkout_state_unset path m s found unset free in
      let lost : t.poisoned (op_id_lock path) ≡ true =
        (run-Grows b prost platform cs _).poisoned (op_id_lock path) (
          ap (λ (u : Daemon). u.poisoned (op_id_lock path))
            (then_state tt (get_checkout_state req) s)
          ∙ fails.1) in
      (
        t,
        refl,
        fails.0,
        get_mount-then path _ t (at_lock (op_id_lock path) _ _ t lost),
        get_mount-then path _ t (
            unwrap-then state _ t λ c.
              unwrap-then _ _ t λ o. unwrap-then _ _ t λ w. at_lock (op_id_lock path) _ _ t lost),
      )
