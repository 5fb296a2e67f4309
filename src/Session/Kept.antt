-- ===== src/Session/Kept.antt =====
-- fs.rs: what a read in a session leaves of the daemon, also where it panics.
use cultivate.Common.{
  arith, ◌≡◌, refl, sym, ap, ◌∙◌, true, some, Bytes, bytes_key, bytes_eq, bytes_eq_iff, Outcome, ok,
  err, panic, Run, ◌>>=◌, ℕ, ℤ, pos, negsuc, Bool-cases, Option-cases, inl, inr,
}
use cultivate.HashMap
use cultivate.Mount
use cultivate.Mount.{Mount}
use cultivate.Inode.{Inode}
use cultivate.Fs.{Fs, F, on_mount}
use cultivate.Fs.Handle.{check_file_handle_read}
use cultivate.Fs.Content.{read_locked, read_node}
use cultivate.Daemon.{Daemon, with_lock, unlock}
use cultivate.Daemon.Locks.{Lock, files_lock}
use cultivate.Session.{fs_of, on_fs, read_request}

-- Nothing has changed but that a lock may be poisoned.
pub record Unharmed (s t : Daemon) : Type 0 where
  pub store : t.store ≡ s.store
  pub mounts : (q : Bytes) → t.mounts q ≡ s.mounts q
  pub poisoned : (l : Lock) → s.poisoned l ≡ true → t.poisoned l ≡ true

Unharmed-refl : (s : Daemon) → Unharmed s s
Unharmed-refl s = record { store = refl; mounts = λ q. refl; poisoned = λ l h. h }

unlock-Unharmed :
    {E A : Type 0} (l : Lock) (p : Outcome E A × Daemon) (s : Daemon)
    → Unharmed s p.1
    → Unharmed s (unlock l p).1
unlock-Unharmed l (ok a, t) s u = u
unlock-Unharmed l (err e, t) s u = u
unlock-Unharmed l (panic, t) s u = record {
  store = u.store;
  mounts = u.mounts;
  poisoned = λ k h. rw (u.poisoned k h) (ground arith);
}

with_lock-Unharmed :
    {E A : Type 0} (l : Lock) (m : Run Daemon E A) (s : Daemon)
    → Unharmed s (m s).1
    → Unharmed s (with_lock l m s).1
unfolding with_lock
with_lock-Unharmed l m s u = elim (Bool-cases (s.poisoned l)) [
  | inl lost ↦ rw lost (Unharmed-refl s)
  | inr free ↦ rw free (unlock-Unharmed l (m s) s u)
]

read_locked_same : (i : Inode) (n size : ℕ) (s : Fs) → (read_locked i n size s).1 ≡ s
unfolding on_mount Mount.get_inode read_node ◌>>=◌
read_locked_same i n size s = ground arith

-- A mount that is put back as it was.
put_back :
    (path : Bytes) (m : Mount) (s : Daemon) (q : Bytes)
    → s.mounts path ≡ some m
    → HashMap.insert path m s.mounts q ≡ s.mounts q
put_back path m s q found = elim (Bool-cases (bytes_eq path q)) [
  | inl same ↦ rw same (sym found ∙ ap s.mounts ((bytes_eq_iff path q).0 same))
  | inr other ↦ rw other refl
]

on_fs-Unharmed :
    {A : Type 0} (path : Bytes) (f : F A) (s : Daemon)
    → ((t : Fs) → (f t).1 ≡ t)
    → Unharmed s (on_fs path f s).1
unfolding on_fs
on_fs-Unharmed path f s same = elim (Option-cases (s.mounts path)) [
  | inl missing ↦ rw missing (Unharmed-refl s)
  | inr (m, found) ↦
      rw (found, same (fs_of s m 1))
        (record { store = refl; mounts = λ q. put_back path m s q found; poisoned = λ l h. h })
]

pub read_request-Unharmed :
    (path : Bytes) (inode : Inode) (fh : ℕ) (offset : ℤ) (size : ℕ) (s : Daemon)
    → Unharmed s (read_request path inode fh offset size s).1
unfolding read_request ◌>>=◌
read_request-Unharmed path inode fh (negsuc n) size s = Unharmed-refl s
read_request-Unharmed path inode fh (pos n) size s = elim (Bool-cases (check_file_handle_read fh)) [
  | inl right ↦ rw right (
      with_lock-Unharmed files_lock (on_fs path (read_locked inode n size)) s
        (on_fs-Unharmed path (read_locked inode n size) s (read_locked_same inode n size)))
  | inr wrong ↦ rw wrong (Unharmed-refl s)
]
