-- ===== src/Service/Runs.antt =====
-- Runs of the calls that the service's handlers are made of, where nothing is in their way.
use cultivate.Common.{
  ◌≡◌, refl, ap, sym, ◌∙◌, true, false, some, Bytes, bytes_eq, bytes_eq_iff, bytes_key, ok, ◌>>=◌,
  Run, Bool-cases, inl, inr,
}
use mathlib.Core.Path.{fun_ext, subst}
use cultivate.HashMap
use cultivate.HashMap.{HashMap}
use cultivate.Mount.{Mount}
use cultivate.Daemon.{Daemon, D, Status, with_lock, unlock, get, on_mount, on_found, of_mount}
use cultivate.Daemon.Locks.{Lock, mounts_lock}
use cultivate.Service.{get_mount}

pub bytes_eq_refl : (x : Bytes) → bytes_eq x x ≡ true
bytes_eq_refl x = (bytes_eq_iff x x).1 refl

-- Writing what a key holds already changes nothing.
insert_same :
    {V : Type 0} (k : Bytes) (v : V) (m : HashMap Bytes V) → m k ≡ some v → HashMap.insert k v m ≡ m
insert_same k v m h = fun_ext (λ j. elim (Bool-cases (bytes_eq k j)) [
  | inl same ↦ rw same (subst (λ i. some v ≡ m i) ((bytes_eq_iff k j).0 same) (sym h))
  | inr other ↦ rw other refl
])

module _ {A : Type 0} where
  pub with_lock_ok :
      (l : Lock) (m : D A) (a : A) (s t : Daemon)
      → s.poisoned l ≡ false
      → m s ≡ (ok a, t)
      → with_lock l m s ≡ (ok a, t)
  unfolding with_lock
  with_lock_ok l m a s t healthy run = rw healthy (ap (unlock l) run)

  -- A getter of a mount.
  pub on_mount_get :
      (path : Bytes) (f : Run Mount Status A) (a : A) (m : Mount) (s : Daemon)
      → s.mounts path ≡ some m
      → f m ≡ (ok a, m)
      → on_mount path f s ≡ (ok a, s)
  unfolding on_mount
  on_mount_get path f a m s found run =
      ap (λ o. on_found o path f s) found
      ∙ ap (of_mount path s) run
      ∙ (λ i. (ok a, record s { mounts = insert_same path m s.mounts found i }))

  -- A setter.
  pub on_mount_set :
      (path : Bytes) (f : Run Mount Status A) (a : A) (m m' : Mount) (s : Daemon)
      → s.mounts path ≡ some m
      → f m ≡ (ok a, m')
      → on_mount path f s ≡ (ok a, record s { mounts = HashMap.insert path m' s.mounts })
  unfolding on_mount
  on_mount_set path f a m m' s found run =
      ap (λ o. on_found o path f s) found ∙ ap (of_mount path s) run

pub get_mount_ok :
    (path : Bytes) (m : Mount) (s : Daemon)
    → s.mounts path ≡ some m
    → s.poisoned mounts_lock ≡ false
    → get_mount path s ≡ (ok tt, s)
unfolding get_mount get with_lock ◌>>=◌
get_mount_ok path m s found healthy = rw (healthy, found) refl
