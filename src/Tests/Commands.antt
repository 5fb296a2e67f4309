-- ===== src/Tests/Commands.antt =====
-- `jj cultivate init` over a daemon, in a directory that nothing is mounted at.
use cultivate.Common.{
  ◌+◌, ◌>>=?◌, refl, true, false, if◌then◌else◌, none, some, [], ◌∷◌, Bytes, bytes_eq, replicate,
  ok, pure, ◌>>=◌, ◌>>◌,
}
use cultivate.Mount.{Mount}
use cultivate.Daemon.{Daemon, Status}
use cultivate.WorkingCopy.{operation_id, workspace_id}
use cultivate.Cli.{Machine, Workspaces}
use cultivate.Tests.Daemons.{no_answer, sample_server, list_merges}

abbrev work : Bytes
work = b'/' ∷ b'n' ∷ []

-- The mount's next inode is taken.
abbrev with_inode : Mount → Mount
with_inode m = record m { next_inode = m.next_inode + 1 }

abbrev writes : Daemon → Daemon
writes s = record s {
  mounts =
      λ q. if bytes_eq work q then (s.mounts work >>=? λ m. some (with_inode m)) else s.mounts q;
}

-- A jj whose repos have one operation id and no objects, and which makes an inode in the working copy.
abbrev plain_jj : Workspaces sample_server list_merges Status
plain_jj = record {
  backend_failed = λ e. no_answer;
  state_path = λ path. path;
  create_repo = λ backend s. (ok (replicate 64 9), writes s);
  init_with_factories = λ path make_backend make_copy workspace_id. (do
    backend ← make_backend
    operation_id ← (λ s. (ok (replicate 64 9), writes s))
    make_copy path path operation_id workspace_id
    pure tt);
  init_with_factories-steps = λ path make_backend make_copy workspace_id s. refl;
}

abbrev here : Machine Status
here = record { cwd = work; enters = true; enters_again = true; sign_init = none }
