-- ===== src/Backend/Stored.antt =====
-- cli/src/backend.rs: what jj writes to its backend and reads back, over any server that keeps
-- objects.
use cultivate.Common.{
  Bool-cases, inl, inr, ◌≡◌, ◌≢◌, refl, ◌∙◌, true, false, if◌then◌else◌, Option, none, some, List,
  [], ◌∷◌, Bytes, bytes_eq, ok, pure, assert, ◌>>=◌, ◌>>◌,
}
use cultivate.Proto
use cultivate.Daemon.{Status}
use cultivate.Jj.{SecureSig, Merges, Trees, IsMap, Commit, Zstd}
use cultivate.Client
use cultivate.Client.{Server, KeepsObjects, unwrap_reply}
use cultivate.Backend.{
  Backend, B, is_none, require_parents, read_file, write_file, read_symlink, write_symlink,
  read_tree, write_tree, read_commit, write_commit,
}
use cultivate.Backend.Convert.{
  file_id_to_proto, commit_id_to_proto, tree_id_to_proto, symlink_id_to_proto, commit_to_proto,
  file_to_proto, file_from_proto, symlink_to_proto, symlink_from_proto, tree_to_proto,
}
use cultivate.Backend.RoundTrip.{commit_from-to, tree_from-to}

sent_parents :
    (ms : Merges) (commit : Commit ms) (parent : Bytes) (parents : List Bytes)
    → commit.parents ≡ parent ∷ parents
    → (commit_to_proto ms commit).parents ≢ []
unfolding commit_to_proto
sent_parents ms commit parent parents h e = cc

module _ (server : Server) (Ready : server.State → Type 0) (Storable : Proto.Tree → Type 0)
    (keeps : KeepsObjects server Ready Storable) (lost : Status) where
  -- The id that a write gives leads a read to the value that was written, and the daemon works on.
  abbrev pub Stores :
      {A : Type 0}
      → (A → B server lost Bytes)
      → (Bytes → B server lost A)
      → A
      → server.State
      → Type 0
  Stores write read a s =
      (id : Bytes) × (t : server.State) × (write a s ≡ (ok id, t))
      × (read id t ≡ (ok a, t))
      × Ready t

  pub read_file-write_file :
      (zstd : Zstd) (contents : Bytes) (s : server.State)
      → Ready s
      → Stores (write_file server lost zstd) (read_file server lost zstd) contents s
  unfolding write_file read_file Client.write_file Client.read_file file_to_proto file_from_proto
      file_id_to_proto ◌>>=◌
  read_file-write_file zstd contents s ready =
      let (id, t, written, back, still) = keeps.files (file_to_proto zstd contents) s ready in
      (id.file_id, t, rw written refl, rw (back, zstd.decode-encode contents) refl, still)

  pub read_symlink-write_symlink :
      (target : Bytes) (s : server.State)
      → Ready s
      → Stores (write_symlink server lost) (read_symlink server lost) target s
  unfolding write_symlink read_symlink Client.write_symlink Client.read_symlink symlink_to_proto
      symlink_from_proto symlink_id_to_proto ◌>>=◌
  read_symlink-write_symlink target s ready =
      let (id, t, written, back, still) = keeps.symlinks (symlink_to_proto target) s ready in
      (id.symlink_id, t, rw written refl, rw back refl, still)

  pub read_tree-write_tree :
      (ts : Trees) (tree : ts.Tree) (p : Proto.Tree) (s : server.State)
      → IsMap ts
      → tree_to_proto ts tree ≡ some p
      → Storable p
      → Ready s
      → Stores (write_tree server lost ts) (read_tree server lost ts) tree s
  unfolding write_tree read_tree Client.write_tree Client.read_tree tree_id_to_proto ◌>>=◌
  read_tree-write_tree ts tree p s is_map converted storable ready =
      let (id, t, written, back, still) = keeps.trees p s storable ready in
      (
        id.tree_id,
        t,
        rw (converted, written) refl,
        rw (back, tree_from-to ts tree p is_map converted) refl,
        still,
      )

  guards_pass :
      {A : Type 0} {parent : Bytes} {parents : List Bytes} (sig : Option SecureSig) (l : List Bytes)
      (rest : B server lost A) (s : server.State)
      → sig ≡ none
      → l ≡ parent ∷ parents
      → (do assert (is_none server lost sig); assert true; require_parents server lost l; rest) s
        ≡ rest s
  unfolding ◌>>=◌
  guards_pass sig l rest s unsigned some_parents = rw (unsigned, some_parents) refl

  pub read_commit-write_commit :
      (ms : Merges) (encode : Proto.Commit → Bytes) (make_root_commit : Bytes → Bytes → Commit ms)
      (backend : Backend) (commit : Commit ms) (parent : Bytes) (parents : List Bytes)
      (s : server.State)
      → commit.secure_sig ≡ none
      → commit.parents ≡ parent ∷ parents
      → Ready s
      → (id : Bytes) × (t : server.State) × (write_commit server lost ms encode commit false s
          ≡ (ok (id, commit), t))
        × (read_commit server lost ms encode make_root_commit backend id t ≡ (
          ok (
              if bytes_eq id backend.root_commit_id
              then make_root_commit backend.root_change_id backend.empty_tree_id
              else commit),
          t,
        ))
        × Ready t
  unfolding write_commit read_commit Client.write_commit Client.read_commit commit_id_to_proto ◌>>=◌
  read_commit-write_commit ms encode make_root_commit backend commit parent parents s unsigned
        some_parents ready =
      let (id, t, written, back, still) =
        keeps.commits (commit_to_proto ms commit) s
          (sent_parents ms commit parent parents some_parents) ready in
      (
        id.commit_id,
        t,
        guards_pass commit.secure_sig commit.parents
              (do
                reply ← unwrap_reply (Client.write_commit server lost (commit_to_proto ms commit))
                pure (reply.commit_id, commit))
              s unsigned some_parents
            ∙ rw written refl,
        elim (Bool-cases (bytes_eq id.commit_id backend.root_commit_id)) [
          | inl root ↦ rw root refl
          | inr other ↦ rw (other, back, commit_from-to ms encode commit unsigned) refl
        ],
        still,
      )
