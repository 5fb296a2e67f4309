-- ===== src/Service/Checkout.antt =====
-- service/backend.rs: the checkout state of a working copy.
use cultivate.Common.{
  ◌≡◌, refl, true, false, some, Bytes, bytes_eq, length, bytes_key, is_utf8, ok, ◌>>=◌, Bool-cases,
  inl, inr, if◌then◌else◌,
}
use cultivate.HashMap
use cultivate.Proto
use cultivate.Object.Proto.{to_array}
use cultivate.Mount
use cultivate.Mount.{Mount}
use cultivate.Daemon.{Daemon, on_mount}
use cultivate.Daemon.Locks.{mounts_lock, op_id_lock, workspace_id_lock}
use cultivate.Service.Runs.{bytes_eq_refl, get_mount_ok, with_lock_ok, on_mount_get, on_mount_set}
use cultivate.Service.{get_tree_state, set_checkout_state, get_checkout_state}

-- A working copy that can be used: it has a mount, and no lock on the way is poisoned.
pub record IsUsable (path : Bytes) (m : Mount) (s : Daemon) : Type 0 where
  pub found : s.mounts path ≡ some m
  pub mounts : s.poisoned mounts_lock ≡ false
  pub op_id : s.poisoned (op_id_lock path) ≡ false
  pub workspace_id : s.poisoned (workspace_id_lock path) ≡ false

abbrev pub with_checkout : Proto.CheckoutState → Mount → Mount
with_checkout cs m = record m { op_id = some cs.op_id; workspace_id = some cs.workspace_id }

-- What setting the checkout state `cs` of a working copy leaves.
pub record CheckedOut (path : Bytes) (m : Mount) (cs : Proto.CheckoutState) (s t : Daemon)
    : Type 0 where
  pub usable : IsUsable path (with_checkout cs m) t
  pub replied : get_checkout_state (record { working_copy_path = path }) t ≡ (ok cs, t)
  pub mounts :
      (q : Bytes) → t.mounts q ≡ (if bytes_eq path q then some (with_checkout cs m) else s.mounts q)
  pub store : t.store ≡ s.store

pub get_checkout_state_lem :
    (path : Bytes) (m : Mount) (cs : Proto.CheckoutState) (s : Daemon)
    → IsUsable path m s
    → m.op_id ≡ some cs.op_id
    → m.workspace_id ≡ some cs.workspace_id
    → get_checkout_state (record { working_copy_path = path }) s ≡ (ok cs, s)
unfolding get_checkout_state ◌>>=◌ Mount.get_op_id Mount.get_workspace_id
get_checkout_state_lem path m cs s u op ws =
    let got_op = on_mount_get path Mount.get_op_id cs.op_id m s u.found (rw op refl) in
    let got_ws =
      on_mount_get path Mount.get_workspace_id cs.workspace_id m s u.found (rw ws refl) in
    rw
      (
        get_mount_ok path m s u.found u.mounts,
        with_lock_ok (op_id_lock path) (on_mount path Mount.get_op_id) cs.op_id s s u.op_id got_op,
        with_lock_ok (workspace_id_lock path) (on_mount path Mount.get_workspace_id) cs.workspace_id
            s s u.workspace_id got_ws,
      )
      refl

pub get_tree_state_lem :
    (path : Bytes) (m : Mount) (s : Daemon)
    → IsUsable path m s
    → get_tree_state (record { working_copy_path = path }) s
      ≡ (ok (record { tree_id = m.tree_id }), s)
unfolding get_tree_state ◌>>=◌ Mount.get_tree_id
get_tree_state_lem path m s u =
    rw
      (
        get_mount_ok path m s u.found u.mounts,
        on_mount_get path Mount.get_tree_id m.tree_id m s u.found refl,
      )
      refl

set_to : Bytes → Mount → Daemon → Daemon
set_to path m s = record s { mounts = HashMap.insert path m s.mounts }

set_checkout_state_lem :
    (path : Bytes) (m : Mount) (cs : Proto.CheckoutState) (s : Daemon)
    → IsUsable path m s
    → length cs.op_id ≡ 64
    → is_utf8 cs.workspace_id ≡ true
    → set_checkout_state (record { working_copy_path = path; checkout_state = some cs }) s ≡ (
      ok (record {}),
      set_to path (with_checkout cs m) (set_to path (record m { op_id = some cs.op_id }) s),
    )
unfolding set_checkout_state set_to to_array ◌>>=◌ Mount.set_op_id Mount.set_workspace_id
set_checkout_state_lem path m cs s u size text =
    let m₁ = record m { op_id = some cs.op_id } in
    let s₁ = set_to path m₁ s in
    let set_op = on_mount_set path (Mount.set_op_id cs.op_id) tt m m₁ s u.found refl in
    let set_ws =
      on_mount_set path (Mount.set_workspace_id cs.workspace_id) tt m₁ (with_checkout cs m) s₁
        (rw (bytes_eq_refl path) refl) refl in
    rw
      (
        get_mount_ok path m s u.found u.mounts,
        size,
        text,
        with_lock_ok (op_id_lock path) (on_mount path (Mount.set_op_id cs.op_id)) tt s s₁ u.op_id
            set_op,
        with_lock_ok (workspace_id_lock path)
            (on_mount path (Mount.set_workspace_id cs.workspace_id)) tt s₁ _ u.workspace_id set_ws,
      )
      refl

-- Setting the checkout state of a working copy that can be used, with an operation id of 64 bytes and
-- a workspace id that is UTF-8, is answered; a request for the state then replies exactly what was
-- set, the working copy can still be used, and nothing but its mount's two ids has changed among the
-- mounts and in the store.
pub set_checkout_state-CheckedOut :
    (path : Bytes) (m : Mount) (cs : Proto.CheckoutState) (s : Daemon)
    → IsUsable path m s
    → length cs.op_id ≡ 64
    → is_utf8 cs.workspace_id ≡ true
    → (t : Daemon) × (set_checkout_state
          (record { working_copy_path = path; checkout_state = some cs })
          s
        ≡ (ok (record {}), t))
      × CheckedOut path m cs s t
unfolding set_to
set_checkout_state-CheckedOut path m cs s u size text =
    let m' = with_checkout cs m in
    let t = set_to path m' (set_to path (record m { op_id = some cs.op_id }) s) in
    let usable : IsUsable path m' t = record {
      found = rw (bytes_eq_refl path) refl;
      mounts = u.mounts;
      op_id = u.op_id;
      workspace_id = u.workspace_id;
    } in
    (
      t,
      set_checkout_state_lem path m cs s u size text,
      record {
        usable = usable;
        replied = get_checkout_state_lem path m' cs t usable refl refl;
        mounts = λ q. elim (Bool-cases (bytes_eq path q)) [
          | inl same ↦ rw same refl
          | inr other ↦ rw other refl
        ];
        store = refl;
      },
    )
