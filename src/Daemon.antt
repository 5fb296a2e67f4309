-- ===== src/Daemon.antt =====
-- repo_manager.rs, and the state that the daemon's services share: the content store, the mounts by
-- the path of their working copies, and the FUSE sessions.
--
-- A call runs on a task of its own, and a panic ends only that task. A mutex whose guard is held when
-- its task panics is poisoned: every later `lock().unwrap()` of it panics too. The locks that handlers
-- hold across code that may panic are therefore part of the state. Calls are taken one at a time.
pub mod Locks
pub mod Origins
pub mod Grows
use cultivate.Common.{
  ℕ, Bool, true, false, Option, none, some, List, [], ◌∷◌, ◌++◌, Bytes, bytes_key, Run, Outcome, ok,
  err, panic, pure, abort, assert, unwrap, gets, modify, ◌>>=◌, ◌>>◌, ◌||◌,
}
use cultivate.HashMap
use cultivate.HashMap.{HashMap}
use cultivate.Store.{Store}
use cultivate.Mount
use cultivate.Mount.{Mount}
use cultivate.Daemon.Locks.{Lock, mounts_lock, fuse_sessions_lock, lock_eq}

-- tonic's `Status`, as far as a service makes one.
pub data Status : Type 0 where
  internal : Bytes → Status

-- A `fuser::BackgroundSession` that serves a `CultivateFS`. The file system shares the store and the
-- mount under this path, and has a counter of file handles of its own.
pub record Session : Type 0 where
  pub mountpoint : Bytes
  pub next_file_handle : ℕ

-- `mounts` and `fuse_sessions` are the fields of `RepoManager`. Cloning a `MountStore` shares it, so a
-- mount is named by its path, under which it stays for ever.
pub record Daemon : Type 0 where
  pub store : Store
  pub mounts : HashMap Bytes Mount
  pub fuse_sessions : List Session
  pub poisoned : Lock → Bool

-- `RepoManager::new`, with the store that it shares
unfoldable pub new : Store → Daemon
new store = record {
  store = store;
  mounts = HashMap.empty;
  fuse_sessions = [];
  poisoned = λ l. false;
}

abbrev pub D : Type 0 → Type 0
D A = Run Daemon Status A

abbrev pub poison : Lock → Daemon → Daemon
poison l s = record s { poisoned = λ k. lock_eq l k || s.poisoned k }

module _ {E A : Type 0} where
  abbrev pub unlock : Lock → Outcome E A × Daemon → Outcome E A × Daemon
  unlock l (ok a, s) = (ok a, s)
  unlock l (err e, s) = (err e, s)
  unlock l (panic, s) = (panic, poison l s)

  abbrev pub locked : Bool → Lock → Run Daemon E A → Run Daemon E A
  locked true l m s = (panic, s)
  locked false l m s = unlock l (m s)

  -- What runs while the guard of `lock().unwrap()` is held.
  unfoldable pub with_lock : Lock → Run Daemon E A → Run Daemon E A
  with_lock l m s = locked (s.poisoned l) l m s

-- What the operating system answers to a mount.
pub record Platform : Type 0 where
  pub is_dir : Bytes → Bool
  pub session_starts : Bytes → Bool

-- `RepoManager::get`
unfoldable pub get : Bytes → D (Option Mount)
unfolding with_lock
get working_copy_path = with_lock mounts_lock (gets (λ s. s.mounts working_copy_path))

abbrev is_none : {A : Type 0} → Option A → Bool
is_none none = true
is_none (some a) = false

module _ (platform : Platform) where
  unfoldable pub initialize_repo : Bytes → D (Unit {0})
  unfolding with_lock Mount.new
  initialize_repo mountpoint = do
    store ← gets (λ s. s.store)
    with_lock mounts_lock (do
      found ← gets (λ s. s.mounts mountpoint)
      assert (is_none found)
      modify (λ s. record s { mounts = HashMap.insert mountpoint (Mount.new store 0) s.mounts })
      assert (platform.is_dir mountpoint)
      assert (platform.session_starts mountpoint)
      with_lock fuse_sessions_lock (
          modify (λ s. record s {
            fuse_sessions =
                s.fuse_sessions ++ record { mountpoint = mountpoint; next_file_handle = 1 } ∷ [];
          })))

-- All sessions end, whatever the path.
unfoldable pub deinit_repo : Bytes → D (Unit {0})
unfolding with_lock
deinit_repo mountpoint =
    with_lock fuse_sessions_lock (modify (λ s. record s { fuse_sessions = [] }))

abbrev pub of_mount :
    {A : Type 0} → Bytes → Daemon → Outcome Status A × Mount → Outcome Status A × Daemon
of_mount path s (r, mount) = (r, record s { mounts = HashMap.insert path mount s.mounts })

abbrev pub on_found : {A : Type 0} → Option Mount → Bytes → Run Mount Status A → D A
on_found none path m s = (panic, s)
on_found (some mount) path m s = of_mount path s (m mount)

-- A call of the mount that `get` found under the path.
unfoldable pub on_mount : {A : Type 0} → Bytes → Run Mount Status A → D A
on_mount path m s = on_found (s.mounts path) path m s

abbrev pub store_after : {A : Type 0} → Option (A × Store) → D A
store_after none s = (panic, s)
store_after (some (a, store)) s = (ok a, record s { store = store })

-- A call of the store; where it gives nothing it panics.
unfoldable pub on_store : {A : Type 0} → (Store → Option (A × Store)) → D A
on_store f s = store_after (f s.store) s
