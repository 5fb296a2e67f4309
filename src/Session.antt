-- ===== src/Session.antt =====
-- repo_manager.rs with fs.rs: requests to the file system of a session, as calls on the daemon.
--
-- The file system of a session works on the store that all share and on the mount under the session's
-- path. `read` and `write` hold the store's mutex of files to their end, so that a panic there poisons
-- it for every session and for the service.
pub mod Lost
pub mod Kept
use cultivate.Common.{ℕ, Option, none, some, Bytes, bytes_key, Outcome, panic, Run, ◌>>=◌, ◌>>◌, ℤ}
use cultivate.HashMap
use cultivate.ContentHash.{Blake3}
use cultivate.Errno.{Errno}
use cultivate.Inode.Clock.{SystemTime}
use cultivate.Inode.{Inode}
use cultivate.Mount.{Mount}
use cultivate.Fs.{Fs, F}
use cultivate.Fs.Handle.{check_file_handle_read, check_file_handle_write}
use cultivate.Fs.Content.{non_negative, require, read_locked, write_locked}
use cultivate.Daemon.{Daemon, with_lock}
use cultivate.Daemon.Locks.{files_lock}

-- The file system of a session.
abbrev pub fs_of : Daemon → Mount → ℕ → Fs
fs_of s m fh = record { store = s.store; mount = m; next_file_handle = fh }

-- A call in a session, which answers with an error code.
abbrev pub R : Type 0 → Type 0
R A = Run Daemon Errno A

abbrev pub fs_after :
    {A : Type 0} → Bytes → Daemon → Outcome Errno A × Fs → Outcome Errno A × Daemon
fs_after path s (r, t) =
    (r, record s { store = t.store; mounts = HashMap.insert path t.mount s.mounts })

abbrev pub on_mounted : {A : Type 0} → Option Mount → Bytes → F A → R A
on_mounted none path f s = (panic, s)
on_mounted (some m) path f s = fs_after path s (f (fs_of s m 1))

-- A call of the file system at the path that does not look at the counter of handles.
unfoldable pub on_fs : {A : Type 0} → Bytes → F A → R A
on_fs path f s = on_mounted (s.mounts path) path f s

unfoldable pub read_request : Bytes → Inode → ℕ → ℤ → ℕ → R Bytes
unfolding on_fs with_lock
read_request path inode fh offset size = do
  offset' ← non_negative offset
  require (check_file_handle_read fh)
  with_lock files_lock (on_fs path (read_locked inode offset' size))

unfoldable pub write_request : Blake3 → (ℕ → SystemTime) → Bytes → Inode → ℕ → ℤ → Bytes → R ℕ
unfolding on_fs with_lock
write_request b now path inode fh offset bytes = do
  offset' ← non_negative offset
  require (check_file_handle_write fh)
  with_lock files_lock (on_fs path (write_locked b now inode offset' bytes))
