-- ===== src/Service/Growing.antt =====
-- service/backend.rs: what every call of the service keeps, and sequences of calls.
use cultivate.Common.{◌>>=?◌, refl, Option, none, some, List, [], ◌∷◌, Bytes, bytes_key}
use cultivate.HashMap
use cultivate.Proto
use cultivate.ContentHash.{Blake3}
use cultivate.Object.{ObjectId, Tree, tree_get_hash}
use cultivate.Store
use cultivate.Mount
use cultivate.Daemon.{Daemon, Platform, initialize_repo, get, on_store, store_after}
use cultivate.Daemon.Grows.{
  Grows, Grows-refl, Growing, Growing-throw, Growing-pure, Growing-modify, Growing-with_lock,
  Growing-bind, Growing-unwrap, Growing-gets, Growing-assert, growing, insert-Within, Within-refl,
}
use cultivate.Daemon.Origins.{Origins-refl, insert-Origins, bare}
use cultivate.Service.{
  Prost, initialize, get_mount, get_tree_state, get_checkout_state, set_checkout_state, snapshot,
  read_file, read_symlink, read_tree, read_commit, write_file, write_symlink, write_tree,
  write_commit, require_parents,
}

pub get_mount-Growing : (path : Bytes) → Growing (get_mount path)
unfolding get_mount get
get_mount-Growing path = search growing

pub get_tree_state-Growing : (req : Proto.GetTreeStateReq) → Growing (get_tree_state req)
unfolding get_tree_state
get_tree_state-Growing req = search (growing, get_mount-Growing)

pub get_checkout_state-Growing :
    (req : Proto.GetCheckoutStateReq) → Growing (get_checkout_state req)
unfolding get_checkout_state
get_checkout_state-Growing req = search (growing, get_mount-Growing) depth 12

pub set_checkout_state-Growing :
    (req : Proto.SetCheckoutStateReq) → Growing (set_checkout_state req)
unfolding set_checkout_state
set_checkout_state-Growing req = search (growing, get_mount-Growing) depth 24

pub read_file-Growing : (req : Proto.FileId) → Growing (read_file req)
unfolding read_file
read_file-Growing req = search growing

pub snapshot-Growing : (req : Proto.SnapshotReq) → Growing (snapshot req)
unfolding snapshot
snapshot-Growing req = search (growing, get_mount-Growing)

pub read_symlink-Growing : (req : Proto.SymlinkId) → Growing (read_symlink req)
unfolding read_symlink
read_symlink-Growing req = search growing

pub read_tree-Growing : (req : Proto.TreeId) → Growing (read_tree req)
unfolding read_tree
read_tree-Growing req = search growing depth 12

pub read_commit-Growing : (req : Proto.CommitId) → Growing (read_commit req)
unfolding read_commit
read_commit-Growing req = search growing

pub require_parents-Growing : (parents : List Bytes) → Growing (require_parents parents)
require_parents-Growing [] = Growing-throw _
require_parents-Growing (x ∷ xs) = Growing-pure tt

module _ (b : Blake3) (prost : Prost) where
  pub write_file-Growing : (file : Proto.File) → Growing (write_file b prost file)
  unfolding write_file
  write_file-Growing file =
      Growing-bind _ _
        (Growing-with_lock _ _ (
          Growing-modify _ λ s. record {
            poisoned = λ l h. h;
            files = insert-Within _ _ _;
            symlinks = Within-refl _;
            trees = Within-refl _;
            commits = Within-refl _;
            mounts = Within-refl _;
            origins = Origins-refl _;
          }))
        λ _. Growing-pure _

  pub write_symlink-Growing : (symlink : Proto.Symlink) → Growing (write_symlink b prost symlink)
  unfolding write_symlink
  write_symlink-Growing symlink =
      Growing-bind _ _
        (Growing-with_lock _ _ (
          Growing-modify _ λ s. record {
            poisoned = λ l h. h;
            files = Within-refl _;
            symlinks = insert-Within _ _ _;
            trees = Within-refl _;
            commits = Within-refl _;
            mounts = Within-refl _;
            origins = Origins-refl _;
          }))
        λ _. Growing-pure _

  pub write_commit-Growing : (commit : Proto.Commit) → Growing (write_commit b prost commit)
  unfolding write_commit
  write_commit-Growing commit = Growing-bind _ _ (require_parents-Growing commit.parents) λ _.
      Growing-bind _ _
        (Growing-with_lock _ _ (
          Growing-modify _ λ s. record {
            poisoned = λ l h. h;
            files = Within-refl _;
            symlinks = Within-refl _;
            trees = Within-refl _;
            commits = insert-Within _ _ _;
            mounts = Within-refl _;
            origins = Origins-refl _;
          }))
        λ _. Growing-pure _

  written-Grows :
      (tree : Tree) (s : Daemon) (o : Option ObjectId)
      → Grows s
          (store_after
            (o >>=? λ hash.
              some (hash, record s.store { trees = HashMap.insert hash tree s.store.trees }))
            s).1
  written-Grows tree s none = Grows-refl s
  written-Grows tree s (some hash) = record {
    poisoned = λ l h. h;
    files = Within-refl s.store.files;
    symlinks = Within-refl s.store.symlinks;
    trees = insert-Within hash tree s.store.trees;
    commits = Within-refl s.store.commits;
    mounts = Within-refl s.mounts;
    origins = Origins-refl s;
  }

  pub write_tree-Growing : (p : Proto.Tree) → Growing (write_tree b prost p)
  unfolding write_tree on_store Store.write_tree
  write_tree-Growing p = Growing-bind _ _ (Growing-unwrap _) λ tree.
      Growing-bind _ _
        (Growing-with_lock _ _ (record { at = λ s. written-Grows tree s (tree_get_hash b tree) }))
        λ _. Growing-pure _

module _ (platform : Platform) where
  pub initialize-Growing : (req : Proto.InitializeReq) → Growing (initialize platform req)
  unfolding initialize initialize_repo Mount.new
  initialize-Growing req =
      Growing-bind _ _
        (Growing-bind _ _ (Growing-gets _) λ store. Growing-with_lock _ _ (
          Growing-bind _ _ (Growing-gets _) λ found. Growing-bind _ _ (Growing-assert _) λ _.
            Growing-bind _ _
              (Growing-modify _ λ s. record {
                poisoned = λ l h. h;
                files = Within-refl _;
                symlinks = Within-refl _;
                trees = Within-refl _;
                commits = Within-refl _;
                mounts = insert-Within _ _ _;
                origins = insert-Origins req.path (Mount.new store 0) s (bare refl refl);
              })
              λ _. Growing-bind _ _ (Growing-assert _) λ _. Growing-bind _ _ (Growing-assert _) λ _.
                Growing-with_lock _ _ (
                  Growing-modify _ λ s. record {
                    poisoned = λ l h. h;
                    files = Within-refl _;
                    symlinks = Within-refl _;
                    trees = Within-refl _;
                    commits = Within-refl _;
                    mounts = Within-refl _;
                    origins = Origins-refl _;
                  })))
        λ _. Growing-pure _
