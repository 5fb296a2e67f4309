-- ===== src/Session/Lost.antt =====
-- fs.rs with service/backend.rs: a panic of `read` under the mutex of files, and the calls after it.
use cultivate.Common.{
  refl, ap, sym, ◌∙◌, ◌≡◌, true, some, List, Bytes, bytes_key, Outcome, panic, ◌>>=◌, ℕ, pos,
}
use cultivate.Proto
use cultivate.ContentHash.{Blake3}
use cultivate.Errno.{Errno}
use cultivate.Inode.Clock.{SystemTime}
use cultivate.Inode.{Inode}
use cultivate.Mount.{Mount}
use cultivate.Fs.{Fs, F}
use cultivate.Fs.Handle.{check_file_handle_read, check_file_handle_write}
use cultivate.Fs.Content.{read, read_locked, write_locked}
use cultivate.Daemon.{Daemon, Platform, with_lock}
use cultivate.Daemon.Locks.{files_lock}
use cultivate.Service.{Prost, read_file, write_file}
use cultivate.Service.Calls.{Call, run, run-Grows}
use cultivate.Service.Poison.{with_lock_poisoned, with_lock_panic}
use cultivate.Session.{fs_of, on_fs, read_request, write_request}

-- What a call of the file system gives, the call on the daemon gives.
on_fs-reply :
    {A : Type 0} (path : Bytes) (f : F A) (m : Mount) (s : Daemon)
    → s.mounts path ≡ some m
    → (on_fs path f s).0 ≡ (f (fs_of s m 1)).0
unfolding on_fs
on_fs-reply path f m s found = rw found refl

read-allowed :
    (inode : Inode) (fh n size : ℕ) (s : Fs)
    → check_file_handle_read fh ≡ true
    → read inode fh (pos n) size s ≡ read_locked inode n size s
unfolding read ◌>>=◌
read-allowed inode fh n size s right = rw right refl

read_request-allowed :
    (path : Bytes) (inode : Inode) (fh n size : ℕ) (s : Daemon)
    → check_file_handle_read fh ≡ true
    → read_request path inode fh (pos n) size s
      ≡ with_lock files_lock (on_fs path (read_locked inode n size)) s
unfolding read_request ◌>>=◌
read_request-allowed path inode fh n size s right = rw right refl

write_request-allowed :
    (b : Blake3) (now : ℕ → SystemTime) (path : Bytes) (inode : Inode) (fh n : ℕ) (bytes : Bytes)
    (s : Daemon)
    → check_file_handle_write fh ≡ true
    → write_request b now path inode fh (pos n) bytes s
      ≡ with_lock files_lock (on_fs path (write_locked b now inode n bytes)) s
unfolding write_request ◌>>=◌
write_request-allowed b now path inode fh n bytes s right = rw right refl

-- A request whose part under the lock panics, panics, and leaves the lock poisoned.
pub read_request-panic :
    (path : Bytes) (inode : Inode) (fh n size : ℕ) (m : Mount) (s : Daemon)
    → s.mounts path ≡ some m
    → check_file_handle_read fh ≡ true
    → (read inode fh (pos n) size (fs_of s m 1)).0 ≡ panic
    → ((read_request path inode fh (pos n) size s).0 ≡ panic)
      × ((read_request path inode fh (pos n) size s).1.poisoned files_lock ≡ true)
read_request-panic path inode fh n size m s found right panics =
    let part = with_lock_panic files_lock (on_fs path (read_locked inode n size)) s (
      on_fs-reply path (read_locked inode n size) m s found
      ∙ ap (λ r. r.0) (sym (read-allowed inode fh n size (fs_of s m 1) right))
      ∙ panics) in
    let same = read_request-allowed path inode fh n size s right in
    (
      ap (λ r. r.0) same ∙ part.0,
      ap (λ (r : Outcome Errno Bytes × Daemon). r.1.poisoned files_lock) same ∙ part.1,
    )

module _ (b : Blake3) (prost : Prost) (platform : Platform) (now : ℕ → SystemTime) where
  -- A read that panics, at an offset that is not negative and through a handle that may read, panics as a
  -- request to a mounted file system; and from then on, whatever calls are made of the service, every
  -- request of the service to read or to write a file, and every read and write in any session at such
  -- an offset and through a handle that may, panics and changes nothing.
  pub read_request-lost :
      (path : Bytes) (inode : Inode) (fh n size : ℕ) (m : Mount) (cs : List Call) (s : Daemon)
      (req : Proto.FileId) (file : Proto.File) (other : Bytes) (i : Inode) (rh wh k wanted : ℕ)
      (bytes : Bytes)
      → s.mounts path ≡ some m
      → check_file_handle_read fh ≡ true
      → (read inode fh (pos n) size (fs_of s m 1)).0 ≡ panic
      → check_file_handle_read rh ≡ true
      → check_file_handle_write wh ≡ true
      → (t : Daemon) × (t ≡ run b prost platform cs (read_request path inode fh (pos n) size s).1)
        × ((read_request path inode fh (pos n) size s).0 ≡ panic)
        × (read_file req t ≡ (panic, t))
        × (write_file b prost file t ≡ (panic, t))
        × (read_request other i rh (pos k) wanted t ≡ (panic, t))
        × (write_request b now other i wh (pos k) bytes t ≡ (panic, t))
  unfolding read_file write_file ◌>>=◌
  read_request-lost path inode fh n size m cs s req file other i rh wh k wanted bytes found right
        panics reads writes =
      let u = (read_request path inode fh (pos n) size s).1 in
      let t = run b prost platform cs u in
      let fails = read_request-panic path inode fh n size m s found right panics in
      let lost : t.poisoned files_lock ≡ true =
        (run-Grows b prost platform cs u).poisoned files_lock fails.1 in
      (
        t,
        refl,
        fails.0,
        with_lock_poisoned files_lock _ t lost,
        rw (with_lock_poisoned files_lock _ t lost) refl,
        read_request-allowed other i rh k wanted t reads ∙ with_lock_poisoned files_lock _ t lost,
        write_request-allowed b now other i wh k bytes t writes
            ∙ with_lock_poisoned files_lock _ t lost,
      )
