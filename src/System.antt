-- ===== src/System.antt =====
-- service/backend.rs with fs.rs: the whole daemon, calls of its service and requests to its mounted file
-- systems interleaved in any order.
--
-- A request goes to the file system of one session. It works on the store that all share and on the
-- mount under the session's path, and both are written back; the session keeps its counter of handles.
-- A panic of a request ends the session; it is a step where the request is a read, which may poison the
-- mutex of files. A panic of a call ends only its task.
pub mod Keeping
pub mod Growing
use cultivate.Common.{
  panic, ℤ, ◌>>=?◌, ℕ, suc, Option, ◌<◌, ◌++◌, ok, ◌≡◌, ◌∙◌, refl, sym, ap, none, some, List, [],
  ◌∷◌, Bytes, bytes_key, bytes_eq, bytes_eq_iff, Bool-cases, inl, inr, true, false,
}
use mathlib.Core.Path.{subst}
use mathlib.Core.Option.{some-injective, none-ne-some}
use cultivate.HashMap
use cultivate.ContentHash.{Blake3}
use cultivate.Store
use cultivate.Store.{Store, get_tree}
use cultivate.Object.{ObjectId, empty_tree}
use cultivate.Fs.Valid.Start.{untouched}
use cultivate.Mount
use cultivate.Mount.{Mount, DirectoryDescriptor}
use cultivate.Inode.Clock.{SystemTime}
use cultivate.Inode.{Inode, FileKind, InodeAttributes}
use cultivate.Fs.{Fs}
use cultivate.Fs.Listing.{ReplyDirectory, init}
use cultivate.Fs.Storing.{Adds, Adds-refl}
use cultivate.Fs.Storing.Steps.{Step-Adds}
use cultivate.Fs.Valid.{Has, Known, IsValid, Since, Since-Known, Since-EntriesKnown}
use cultivate.Fs.Valid.Serving.{Step, Step-IsValid}
use cultivate.Session.{fs_of, read_request}
use cultivate.Daemon
use cultivate.Daemon.{Daemon, Platform, Session}
use cultivate.Service.{Prost}
use cultivate.Service.Calls.{Call, serve, serve-Growing}

-- What a request to a session leaves; the other sessions are `before` and `after`.
abbrev pub written_back : Session → Fs → (before after : List Session) → Daemon → Daemon
written_back session t before after s = record s {
  store = t.store;
  mounts = HashMap.insert session.mountpoint t.mount s.mounts;
  fuse_sessions = before ++ record session { next_file_handle = t.next_file_handle } ∷ after;
}

-- A session between the others has ended.
abbrev pub ended : (before after : List Session) → Daemon → Daemon
ended before after s = record s { fuse_sessions = before ++ after }

-- Every mount is the valid state of a file system.
pub record AllValid (s : Daemon) : Type 0 where
  pub at : (path : Bytes) (m : Mount) → s.mounts path ≡ some m → IsValid (fs_of s m 1)

-- daemon-old/src/main.rs: the state that the program serves from. Setting up logging and listening are
-- left out.
unfoldable pub start : Blake3 → Option Daemon
unfolding Store.new Daemon.new
start b = Store.new b >>=? λ store. some (Daemon.new store)

module _ (b : Blake3) (prost : Prost) (platform : Platform) (now : ℕ → SystemTime)
    (d : ReplyDirectory) where
  -- What happens in the daemon. A call of the service, whatever its outcome; the first request of a
  -- session, on a mount that no request has reached, while the store leads the id of the empty tree to
  -- it; an answered request to a session; or a read that panics and ends its session.
  pub data Event (s t : Daemon) : Type 0 where
    called : (c : Call) → (serve b prost platform c s).1 ≡ t → Event s t
    started :
        (before after : List Session) (session : Session) (op_id workspace_id : Option Bytes)
        (tree_id : ObjectId) (readings fuel : ℕ)
        → s.fuse_sessions ≡ before ++ session ∷ after
        → s.mounts session.mountpoint ≡ some (untouched op_id workspace_id tree_id readings)
        → get_tree s.store.empty_tree_id s.store ≡ some empty_tree
        → (let u =
              (init now (suc fuel) (
                fs_of s
                  (untouched op_id workspace_id tree_id readings)
                  session.next_file_handle)).1 in
            written_back session u before after s ≡ t)
        → Event s t
    requested :
        (before after : List Session) (session : Session) (m : Mount) (u : Fs)
        → s.fuse_sessions ≡ before ++ session ∷ after
        → s.mounts session.mountpoint ≡ some m
        → Step b now d (fs_of s m session.next_file_handle) u
        → written_back session u before after s ≡ t
        → Event s t
    broken :
        (before after : List Session) (session : Session) (inode : Inode) (fh : ℕ) (offset : ℤ)
        (size : ℕ)
        → s.fuse_sessions ≡ before ++ session ∷ after
        → (read_request session.mountpoint inode fh offset size s).0 ≡ panic
        → ended before after (read_request session.mountpoint inode fh offset size s).1 ≡ t
        → Event s t

  pub data Reaches (s : Daemon) : Daemon → Type 0 where
    begin : Reaches s s
    followed : {t u : Daemon} → Reaches s t → Event t u → Reaches s u
