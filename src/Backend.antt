-- ===== src/Backend.antt =====
-- cli/src/backend.rs, first half: `CultivateBackend`, jj's backend that keeps its objects in a daemon.
--
-- A method runs on the state of the daemon behind the client. Its error is jj's `BackendError`; where
-- a remote call gives a status, `unwrap` panics.
pub mod Convert
pub mod RoundTrip
pub mod Stored
pub mod EndToEnd
use cultivate.Common.{
  ℕ, zero, suc, Bool, true, false, if◌then◌else◌, Option, none, some, List, [], ◌∷◌, Bytes,
  bytes_eq, replicate, Outcome, ok, err, panic, Run, pure, throw, abort, assert, unwrap, ◌>>=◌,
  ◌>>◌,
}
use cultivate.Proto
use cultivate.Daemon.{Status}
use cultivate.Jj.{Merges, Trees, Commit, Zstd}
use cultivate.Client
use cultivate.Client.{Server, unwrap_reply}
use cultivate.Backend.Convert.{
  file_id_to_proto, commit_id_to_proto, tree_id_to_proto, symlink_id_to_proto, commit_to_proto,
  commit_from_proto, file_to_proto, file_from_proto, symlink_to_proto, symlink_from_proto,
  tree_to_proto, tree_from_proto,
}

-- `BackendError::Other` of "Cannot write a commit with no parents"; no method makes another.
pub data BackendError : Type 0 where
  no_parents : BackendError

-- The name that jj writes into a repo, and finds the backend by: "cultivate".
abbrev pub name : Bytes
name = b'c' ∷ b'u' ∷ b'l' ∷ b't' ∷ b'i' ∷ b'v' ∷ b'a' ∷ b't' ∷ b'e' ∷ []

abbrev pub commit_id_length : ℕ
commit_id_length = 32

abbrev pub change_id_length : ℕ
change_id_length = 16

-- `CultivateBackend` without its client
pub record Backend : Type 0 where
  pub root_commit_id : Bytes
  pub root_change_id : Bytes
  pub empty_tree_id : Bytes

unfoldable pub concurrency : ℕ
concurrency = 1

module _ (server : Server) (lost : Status) where
  abbrev pub B : Type 0 → Type 0
  B A = Run server.State BackendError A

  -- `connects` says whether `connect` reaches a daemon.
  unfoldable pub new : Bool → B Backend
  unfolding Client.get_empty_tree_id
  new connects = do
    assert connects
    reply ← unwrap_reply (Client.get_empty_tree_id server lost)
    pure (record {
      root_commit_id = replicate commit_id_length 0;
      root_change_id = replicate change_id_length 0;
      empty_tree_id = reply.tree_id;
    })

  module _ (zstd : Zstd) where
    unfoldable pub read_file : Bytes → B Bytes
    unfolding Client.read_file file_id_to_proto file_from_proto
    read_file id = do
      proto ← unwrap_reply (Client.read_file server lost (file_id_to_proto id))
      unwrap (file_from_proto zstd proto)

    unfoldable pub write_file : Bytes → B Bytes
    unfolding Client.write_file file_to_proto
    write_file contents = do
      id ← unwrap_reply (Client.write_file server lost (file_to_proto zstd contents))
      pure id.file_id

  unfoldable pub read_symlink : Bytes → B Bytes
  unfolding Client.read_symlink symlink_id_to_proto symlink_from_proto
  read_symlink id = do
    proto ← unwrap_reply (Client.read_symlink server lost (symlink_id_to_proto id))
    pure (symlink_from_proto proto)

  unfoldable pub write_symlink : Bytes → B Bytes
  unfolding Client.write_symlink symlink_to_proto
  write_symlink target = do
    id ← unwrap_reply (Client.write_symlink server lost (symlink_to_proto target))
    pure id.symlink_id

  module _ (ts : Trees) where
    unfoldable pub read_tree : Bytes → B ts.Tree
    unfolding Client.read_tree tree_id_to_proto tree_from_proto
    read_tree id = do
      proto ← unwrap_reply (Client.read_tree server lost (tree_id_to_proto id))
      unwrap (tree_from_proto ts proto)

    unfoldable pub write_tree : ts.Tree → B Bytes
    unfolding Client.write_tree tree_to_proto
    write_tree tree = do
      proto ← unwrap (tree_to_proto ts tree)
      id ← unwrap_reply (Client.write_tree server lost proto)
      pure id.tree_id

  -- `todo!`
  unfoldable pub read_conflict : Bytes → B Bytes
  read_conflict id = abort

  unfoldable pub write_conflict : Bytes → B Bytes
  write_conflict contents = abort

  unfoldable pub gc : B (Unit {0})
  gc = abort

  unfoldable pub get_copy_records : B (Unit {0})
  get_copy_records = abort

  abbrev pub require_parents : List Bytes → B (Unit {0})
  require_parents [] = throw no_parents
  require_parents (parent ∷ parents) = pure tt

  abbrev pub is_none : {A : Type 0} → Option A → Bool
  is_none none = true
  is_none (some a) = false

  module _ (ms : Merges) (encode : Proto.Commit → Bytes) where
    -- `make_root_commit` is jj's.
    unfoldable pub read_commit : (Bytes → Bytes → Commit ms) → Backend → Bytes → B (Commit ms)
    unfolding Client.read_commit commit_id_to_proto commit_from_proto
    read_commit make_root_commit backend id =
        if bytes_eq id backend.root_commit_id
        then pure (make_root_commit backend.root_change_id backend.empty_tree_id)
        else do
          proto ← unwrap_reply (Client.read_commit server lost (commit_id_to_proto id))
          unwrap (commit_from_proto ms encode proto)

    -- `signs` says whether a signing function was given.
    unfoldable pub write_commit : Commit ms → Bool → B (Bytes × Commit ms)
    unfolding Client.write_commit commit_to_proto
    write_commit commit signs = do
      assert (is_none commit.secure_sig)
      assert (elim signs [ true ↦ false | false ↦ true ])
      require_parents commit.parents
      id ← unwrap_reply (Client.write_commit server lost (commit_to_proto ms commit))
      pure (id.commit_id, commit)
