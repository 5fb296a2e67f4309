-- ===== src/Client/Served.antt =====
-- The daemon's service as the server of the client.
use cultivate.Common.{
  All, ◌≡◌, ◌≢◌, refl, ap, ◌∙◌, Bool, true, false, List, [], ◌∷◌, Bytes, ok, if◌then◌else◌, some,
  panic,
}
use cultivate.Proto
use cultivate.ContentHash.{Blake3}
use cultivate.Object.{Tree, TreeEntry, file}
use cultivate.Object.Encoding.{Hashable}
use cultivate.Object.Proto.{tree_from_proto, all_files}
use cultivate.Daemon.{Daemon, Platform}
use cultivate.Daemon.Locks.{Lock, commits_lock, files_lock, symlinks_lock, trees_lock}
use cultivate.Service
use cultivate.Service.{Prost}
use cultivate.Service.Objects.{
  read_file-write_file, read_symlink-write_symlink, read_tree-write_tree, read_commit-write_commit,
}
use cultivate.Client.{Server, KeepsObjects}

abbrev pub IsFree : Daemon → Type 0
IsFree s =
    (s.poisoned commits_lock ≡ false)
    × (s.poisoned files_lock ≡ false)
    × (s.poisoned symlinks_lock ≡ false)
    × (s.poisoned trees_lock ≡ false)

-- All entries are files with ids of 32 bytes.
abbrev pub IsFlat : Proto.Tree → Type 0
IsFlat p = (tree : Tree) × (tree_from_proto p ≡ some tree) × (all_files tree.entries ≡ true)

uncons : (l : List Bytes) → l ≢ [] → (x : Bytes) × (xs : List Bytes) × (l ≡ x ∷ xs)
uncons [] h = absurd (h refl)
uncons (x ∷ xs) h = (x, xs, refl)

all_files-HashableTree :
    (es : List (Bytes × TreeEntry))
    → all_files es ≡ true
    → All (λ (e : Bytes × TreeEntry). Unit {0} × Hashable e.1) es
unfolding all_files
all_files-HashableTree [] h = tt
all_files-HashableTree ((n, file id x) ∷ es) h = ((tt, tt), all_files-HashableTree es h)
all_files-HashableTree ((n, e) ∷ es) h = cc

module _ (b : Blake3) (prost : Prost) (platform : Platform) where
  abbrev pub daemon : Server
  daemon = record {
    State = Daemon;
    initialize = Service.initialize platform;
    get_tree_state = Service.get_tree_state;
    get_checkout_state = Service.get_checkout_state;
    set_checkout_state = Service.set_checkout_state;
    snapshot = Service.snapshot;
    get_empty_tree_id = Service.get_empty_tree_id;
    write_file = Service.write_file b prost;
    read_file = Service.read_file;
    write_symlink = Service.write_symlink b prost;
    read_symlink = Service.read_symlink;
    write_tree = Service.write_tree b prost;
    read_tree = Service.read_tree;
    write_commit = Service.write_commit b prost;
    read_commit = Service.read_commit;
  }

  IsFree-after : (s t : Daemon) → t.poisoned ≡ s.poisoned → IsFree s → IsFree t
  IsFree-after s t same (c, f, l, r) =
      let at = λ (k : Lock). ap (λ p. p k) same in
      (at commits_lock ∙ c, at files_lock ∙ f, at symlinks_lock ∙ l, at trees_lock ∙ r)

  pub daemon-KeepsObjects : KeepsObjects daemon IsFree IsFlat
  daemon-KeepsObjects = record {
    files = λ file s free.
        let (id, t, written, back, same) = read_file-write_file b prost file s free.1 in
        (id, t, written, back, IsFree-after s t same free);
    symlinks = λ symlink s free.
        let (id, t, written, back, same) = read_symlink-write_symlink b prost symlink s free.2 in
        (id, t, written, back, IsFree-after s t same free);
    trees = λ p s (tree, converted, files) free.
        let (id, t, written, back, same) =
          read_tree-write_tree b prost p tree s converted
            (all_files-HashableTree tree.entries files) free.3 in
        (
          id,
          t,
          written,
          back ∙ ap (λ (c : Bool). (if c then ok p else panic, t)) files,
          IsFree-after s t same free,
        );
    commits = λ commit s parents free.
        let (x, xs, some_parents) = uncons commit.parents parents in
        let (id, t, written, back, same) =
          read_commit-write_commit b prost commit x xs s some_parents free.0 in
        (id, t, written, back, IsFree-after s t same free);
  }
