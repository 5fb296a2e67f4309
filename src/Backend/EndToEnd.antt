-- ===== src/Backend/EndToEnd.antt =====
-- cli/src/backend.rs over service/backend.rs: what jj writes through the client into the daemon's store,
-- and reads back from it.
use cultivate.Common.{
  refl, Outcome, ◌>>=◌, ◌≡◌, false, if◌then◌else◌, none, some, List, ◌∷◌, Bytes, bytes_eq, ok,
}
use mathlib.Core.Path.{subst}
use cultivate.Proto
use cultivate.Client
use cultivate.Service
use cultivate.Daemon.{with_lock, Daemon, Platform, Status}
use cultivate.Object.Proto.{file_from_proto}
use cultivate.Service.Runs.{bytes_eq_refl}
use cultivate.ContentHash.{Blake3}
use cultivate.Service.{Prost}
use cultivate.Client.{Server}
use cultivate.Client.Served.{IsFree, IsFlat, daemon, daemon-KeepsObjects}
use cultivate.Jj.{Merges, Trees, IsMap, Commit, Zstd}
use cultivate.Backend.{
  BackendError, Backend, read_file, write_file, read_symlink, write_symlink, read_tree, write_tree,
  read_commit, write_commit,
}
use cultivate.Backend.Convert.{file_to_proto, tree_to_proto}
use cultivate.Backend.Stored.{
  read_file-write_file, read_symlink-write_symlink, read_tree-write_tree, read_commit-write_commit,
}

module _ (b : Blake3) (prost : Prost) (platform : Platform) (lost : Status) where
  abbrev server : Server
  server = daemon b prost platform

  -- What a reply says of the state that it comes with.
  abbrev StoresCompressed : Zstd → Bytes → Outcome BackendError Bytes × Daemon → Type 0
  StoresCompressed zstd contents (ok id, t) =
      t.store.files id ≡ some (record { content = zstd.encode contents })
  StoresCompressed zstd contents (_, t) = Unit

  write_file-StoresCompressed :
      (zstd : Zstd) (contents : Bytes) (s : Daemon)
      → IsFree s
      → StoresCompressed zstd contents (write_file server lost zstd contents s)
  unfolding write_file Client.write_file Service.write_file file_to_proto with_lock file_from_proto
      ◌>>=◌
  write_file-StoresCompressed zstd contents s free =
      rw
        (
          free.1,
          bytes_eq_refl (b.hash (prost.encode_file (record { «data» = zstd.encode contents }))),
        )
        refl

  -- Where no lock of the store is poisoned, a file that jj writes is stored under an id that leads the
  -- daemon to its contents as zstd encodes them, and leads jj back to the contents; no lock is poisoned
  -- then.
  pub file_reads_back :
      (zstd : Zstd) (contents : Bytes) (s : Daemon)
      → IsFree s
      → (id : Bytes) × (t : Daemon) × (write_file server lost zstd contents s ≡ (ok id, t))
        × (t.store.files id ≡ some (record { content = zstd.encode contents }))
        × (read_file server lost zstd id t ≡ (ok contents, t))
        × IsFree t
  file_reads_back zstd contents s free =
      let (id, t, written, back, still) =
        read_file-write_file server IsFree IsFlat (daemon-KeepsObjects b prost platform) lost zstd
          contents s free in
      let stored =
        subst (StoresCompressed zstd contents) written
          (write_file-StoresCompressed zstd contents s free) in
      (id, t, written, stored, back, still)

  -- Where no lock of the store is poisoned, a link that jj writes is stored under an id that leads jj
  -- back to its target, and no lock is poisoned then.
  symlink_reads_back :
      (target : Bytes) (s : Daemon)
      → IsFree s
      → (id : Bytes) × (t : Daemon) × (write_symlink server lost target s ≡ (ok id, t))
        × (read_symlink server lost id t ≡ (ok target, t))
        × IsFree t
  symlink_reads_back target s free =
      read_symlink-write_symlink server IsFree IsFlat (daemon-KeepsObjects b prost platform) lost
        target s free

  -- Where no lock of the store is poisoned, a tree of jj's that converts to a message whose entries are
  -- all files with ids of 32 bytes is stored under an id that leads jj back to the tree, and no lock is
  -- poisoned then, if setting all entries of a tree one after the other gives the tree.
  pub tree_reads_back :
      (ts : Trees) (tree : ts.Tree) (p : Proto.Tree) (s : Daemon)
      → IsMap ts
      → tree_to_proto ts tree ≡ some p
      → IsFlat p
      → IsFree s
      → (id : Bytes) × (t : Daemon) × (write_tree server lost ts tree s ≡ (ok id, t))
        × (read_tree server lost ts id t ≡ (ok tree, t))
        × IsFree t
  tree_reads_back ts tree p s is_map converted flat free =
      read_tree-write_tree server IsFree IsFlat (daemon-KeepsObjects b prost platform) lost ts tree
        p s is_map converted flat free

  -- Where no lock of the store is poisoned, a commit of jj's with a parent and without a signature is
  -- written unsigned, gives the commit back as it was, and is stored under an id that leads jj back to
  -- the commit, or to the root commit if it is the root commit's id; no lock is poisoned then.
  pub commit_reads_back :
      (ms : Merges) (encode : Proto.Commit → Bytes) (make_root_commit : Bytes → Bytes → Commit ms)
      (backend : Backend) (commit : Commit ms) (parent : Bytes) (parents : List Bytes) (s : Daemon)
      → commit.secure_sig ≡ none
      → commit.parents ≡ parent ∷ parents
      → IsFree s
      → (id : Bytes) × (t : Daemon) × (write_commit server lost ms encode commit false s
          ≡ (ok (id, commit), t))
        × (read_commit server lost ms encode make_root_commit backend id t ≡ (
          ok (
              if bytes_eq id backend.root_commit_id
              then make_root_commit backend.root_change_id backend.empty_tree_id
              else commit),
          t,
        ))
        × IsFree t
  commit_reads_back ms encode make_root_commit backend commit parent parents s unsigned some_parents
        free =
      read_commit-write_commit server IsFree IsFlat (daemon-KeepsObjects b prost platform) lost ms
        encode make_root_commit backend commit parent parents s unsigned some_parents free
