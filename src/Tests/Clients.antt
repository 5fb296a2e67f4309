-- ===== src/Tests/Clients.antt =====
-- jj's backend over the daemon, and the locks of a client, at concrete inputs.
use cultivate.Common.{
  ℕ, ◌≡◌, refl, true, false, if◌then◌else◌, none, some, List, [], ◌∷◌, Bytes, bytes_eq, bytes_key,
  replicate, ok, pos, arith,
}
use cultivate.Proto
use cultivate.Daemon.{Daemon}
use cultivate.Client.Served.{IsFree}
use cultivate.Client.Locks
use cultivate.Client.Locks.{
  Reach, start, later, client_first, locking_second, go, locking_first, move,
}
use cultivate.Client.Locks.Progress.{CanMove, no_deadlock}
use cultivate.Client.Locks.Deadlock.{any, crossed, deadlock}
use cultivate.Jj.{merge, Commit, Signature, TreeValue}
use cultivate.Backend.{
  Backend, read_file, write_file, read_tree, write_tree, read_commit, write_commit,
}
use cultivate.Backend.Convert.{tree_to_proto}
use cultivate.Object.Proto.{tree_from_proto, all_files}
use cultivate.Backend.EndToEnd.{file_reads_back, tree_reads_back, commit_reads_back}
use cultivate.Tests.Samples.{sample_hash}
use cultivate.Tests.Daemons.{
  sample_prost, willing, no_answer, sample_server, sample_daemon, framed_zstd, list_merges,
  list_trees, list_trees-IsMap,
}

abbrev word : Bytes
word = b'o' ∷ b'k' ∷ []

file_reads_back_example :
    (id : Bytes) × (t : Daemon) × (write_file sample_server no_answer framed_zstd word sample_daemon
      ≡ (ok id, t))
    × (t.store.files id ≡ some (record { content = 40 ∷ word }))
    × (read_file sample_server no_answer framed_zstd id t ≡ (ok word, t))
    × IsFree t
file_reads_back_example =
    file_reads_back sample_hash sample_prost willing no_answer framed_zstd word sample_daemon
      (refl, refl, refl, refl)

-- A tree with one file, and its message.
abbrev one_file : List (Bytes × TreeValue)
one_file = (word, TreeValue.file (replicate 32 1) true) ∷ []

abbrev one_file_message : Proto.Tree
one_file_message = record {
  entries =
      record {
        name = word;
        value = some (record {
          value = some (Proto.Value.file (record { id = replicate 32 1; executable = true }));
        });
      }
      ∷ [];
}

tree_reads_back_example :
    (id : Bytes) × (t : Daemon) × (write_tree sample_server no_answer list_trees one_file
        sample_daemon
      ≡ (ok id, t))
    × (read_tree sample_server no_answer list_trees id t ≡ (ok one_file, t))
    × IsFree t
unfolding tree_to_proto tree_from_proto all_files
tree_reads_back_example =
    tree_reads_back sample_hash sample_prost willing no_answer list_trees one_file one_file_message
      sample_daemon list_trees-IsMap refl (_, refl, refl) (refl, refl, refl, refl)

abbrev nobody : Signature
nobody = record {
  name = word;
  email = [];
  timestamp = record { timestamp = pos 0; tz_offset = pos 0 };
}

abbrev sample_commit : Commit list_merges
sample_commit = record {
  parents = replicate 32 0 ∷ [];
  predecessors = [];
  root_tree = merge (replicate 32 1 ∷ []);
  change_id = replicate 16 2;
  description = word;
  author = nobody;
  committer = nobody;
  secure_sig = none;
}

abbrev root_ids : Backend
root_ids = record {
  root_commit_id = replicate 32 0;
  root_change_id = replicate 16 0;
  empty_tree_id = replicate 32 9;
}

commit_reads_back_example :
    (id : Bytes) × (t : Daemon) × (write_commit sample_server no_answer list_merges
        (λ c. [])
        sample_commit
        false
        sample_daemon
      ≡ (ok (id, sample_commit), t))
    × (read_commit sample_server no_answer list_merges
          (λ c. [])
          (λ change tree. sample_commit)
          root_ids
          id
          t
        ≡ (ok (if bytes_eq id root_ids.root_commit_id then sample_commit else sample_commit), t))
    × IsFree t
commit_reads_back_example =
    commit_reads_back sample_hash sample_prost willing no_answer list_merges (λ c. [])
      (λ change tree. sample_commit) root_ids sample_commit (replicate 32 0) [] sample_daemon refl
      refl (refl, refl, refl, refl)

-- One thread has called `read_file`.
abbrev one_call : Locks.State
one_call = go 0 (locking_first Locks.Method.read_file) Locks.init

no_deadlock_example : (j : ℕ) × CanMove one_call j
unfolding move
no_deadlock_example =
    no_deadlock one_call 0 (later 0 Locks.Method.read_file start refl refl) (λ e. cc)

deadlock_example :
    Reach any Locks.init (crossed 0 1 Locks.Method.read_file)
    × ((crossed 0 1 Locks.Method.read_file).pc 0 ≡ locking_second Locks.Method.get_empty_tree_id)
    × ((crossed 0 1 Locks.Method.read_file).pc 1 ≡ locking_second Locks.Method.read_file)
deadlock_example =
    deadlock 0 1 Locks.Method.read_file (crossed 0 1 Locks.Method.read_file) (omega arith) refl
      start
