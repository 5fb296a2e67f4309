-- ===== src/Service/Objects.antt =====
-- service/backend.rs: objects written through the service and read back.
use cultivate.Common.{
  ◌≡◌, refl, true, false, some, List, ◌∷◌, Bytes, panic, if◌then◌else◌, nat_eq, length, Bool-cases,
  inl, inr, bytes_key, ok, ◌>>=◌,
}
use cultivate.HashMap
use cultivate.Proto
use cultivate.ContentHash.{Blake3}
use cultivate.Object.{Tree}
use cultivate.Object.Encoding.{HashableTree, tree_get_hash_lem, encode_tree}
use cultivate.Object.Proto.{
  to_array, file_as_proto, file_from_proto, symlink_as_proto, symlink_from_proto, tree_from_proto,
  all_files, tree_as_from,
}
use cultivate.Store
use cultivate.Store.{get_tree}
use cultivate.Daemon.{Daemon, D, with_lock, on_store}
use cultivate.Daemon.Locks.{files_lock, symlinks_lock, commits_lock, trees_lock}
use cultivate.Service.Runs.{bytes_eq_refl}
use cultivate.Service.{
  Prost, write_file, read_file, write_symlink, read_symlink, write_commit, read_commit, write_tree,
  read_tree,
}

-- The value that a write replies leads a later read, at once, to what was written.
abbrev pub ReadsBack : {A I : Type 0} → (A → D I) → (I → D A) → A → Daemon → Type 0
ReadsBack {I = I} write read a s =
    (id : I) × (t : Daemon) × (write a s ≡ (ok id, t))
    × (read id t ≡ (ok a, t))
    × (t.poisoned ≡ s.poisoned)

module _ (b : Blake3) (prost : Prost) where
  pub read_file-write_file :
      (file : Proto.File) (s : Daemon)
      → s.poisoned files_lock ≡ false
      → ReadsBack (write_file b prost) read_file file s
  unfolding write_file read_file with_lock ◌>>=◌ file_as_proto file_from_proto
  read_file-write_file file s healthy =
      let id = b.hash (prost.encode_file file) in
      (
        record { file_id = id },
        record s {
          store = record s.store { files = HashMap.insert id (file_from_proto file) s.store.files };
        },
        rw healthy refl,
        rw (healthy, bytes_eq_refl id) refl,
        refl,
      )

  pub read_symlink-write_symlink :
      (symlink : Proto.Symlink) (s : Daemon)
      → s.poisoned symlinks_lock ≡ false
      → ReadsBack (write_symlink b prost) read_symlink symlink s
  unfolding write_symlink read_symlink with_lock ◌>>=◌ symlink_as_proto symlink_from_proto
  read_symlink-write_symlink symlink s healthy =
      let id = b.hash (prost.encode_symlink symlink) in
      (
        record { symlink_id = id },
        record s {
          store = record s.store {
            symlinks = HashMap.insert id (symlink_from_proto symlink) s.store.symlinks;
          };
        },
        rw healthy refl,
        rw (healthy, bytes_eq_refl id) refl,
        refl,
      )

  pub read_commit-write_commit :
      (commit : Proto.Commit) (parent : Bytes) (parents : List Bytes) (s : Daemon)
      → commit.parents ≡ parent ∷ parents
      → s.poisoned commits_lock ≡ false
      → ReadsBack (write_commit b prost) read_commit commit s
  unfolding write_commit read_commit with_lock ◌>>=◌
  read_commit-write_commit commit parent parents s some_parents healthy =
      let id = b.hash (prost.encode_commit commit) in
      (
        record { commit_id = id },
        record s { store = record s.store { commits = HashMap.insert id commit s.store.commits } },
        rw (some_parents, healthy) refl,
        rw (healthy, bytes_eq_refl id) refl,
        refl,
      )

  pub read_tree-write_tree :
      (p : Proto.Tree) (tree : Tree) (s : Daemon)
      → tree_from_proto p ≡ some tree
      → HashableTree tree
      → s.poisoned trees_lock ≡ false
      → (id : Proto.TreeId) × (t : Daemon) × (write_tree b prost p s ≡ (ok id, t))
        × (read_tree id t ≡ (if all_files tree.entries then ok p else panic, t))
        × (t.poisoned ≡ s.poisoned)
  unfolding write_tree read_tree with_lock on_store ◌>>=◌ Store.write_tree get_tree to_array
  read_tree-write_tree p tree s converted hashable healthy =
      let id = b.hash (encode_tree tree) in
      let hash = tree_get_hash_lem b tree hashable in
      let size : nat_eq (length id) 32 ≡ true = rw b.length-hash refl in
      (
        record { tree_id = id },
        record s { store = record s.store { trees = HashMap.insert id tree s.store.trees } },
        rw (converted, healthy, hash) refl,
        rw (size, healthy, bytes_eq_refl id, tree_as_from p tree converted)
            (elim (Bool-cases (all_files tree.entries)) [
              | inl files ↦ rw files refl
              | inr other ↦ rw other refl
            ]),
        refl,
      )
