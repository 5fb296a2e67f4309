-- ===== src/Jj.antt =====
-- What cli/src uses of the crates `jj_lib` and `zstd`. Identifiers are byte strings. A record has the
-- public fields that the source fills in; `Merge`, `Tree` and the names in it, which the source only
-- builds and reads through methods, are parameters with the laws that their documentation states.
use cultivate.Common.{ℤ, ◌≡◌, Bool, Option, some, List, [], ◌∷◌, Bytes}

pub record Timestamp : Type 0 where
  pub timestamp : ℤ
  pub tz_offset : ℤ

pub record Signature : Type 0 where
  pub name : Bytes
  pub email : Bytes
  pub timestamp : Timestamp

pub record SecureSig : Type 0 where
  pub signed : Bytes
  pub sig : Bytes

pub data TreeValue : Type 0 where
  file : Bytes → Bool → TreeValue
  symlink : Bytes → TreeValue
  tree : Bytes → TreeValue
  git_submodule : Bytes → TreeValue
  conflict : Bytes → TreeValue

-- `Merge<TreeId>`: `iter` gives the ids in order, and `MergeBuilder` makes a merge of as many ids as a
-- merge can have; it panics on others.
pub record Merges : Type 1 where
  pub Merge : Type 0
  pub iter : Merge → List Bytes
  pub build : List Bytes → Option Merge
  pub build-iter : (m : Merge) → build (iter m) ≡ some m
  pub build_one : (id : Bytes) → (m : Merge) × (build (id ∷ []) ≡ some m) × (iter m ≡ id ∷ [])

-- `RepoPathComponentBuf` and `Tree`, a map from components to values.
pub record Trees : Type 1 where
  pub Component : Type 0
  pub as_str : Component → Bytes
  -- `from`, which panics on a text that is no component
  pub from : Bytes → Option Component
  pub Tree : Type 0
  pub empty : Tree
  pub set : Tree → Component → TreeValue → Tree
  pub entries : Tree → List (Component × TreeValue)
  pub from-as_str : (c : Component) → from (as_str c) ≡ some c

-- Setting entries one after the other.
abbrev pub set_all : (ts : Trees) → List (ts.Component × TreeValue) → ts.Tree → ts.Tree
set_all ts [] t = t
set_all ts ((c, v) ∷ es) t = set_all ts es (ts.set t c v)

-- The entries of a tree make up the tree.
pub record IsMap (ts : Trees) : Type 0 where
  pub set_all-entries : (t : ts.Tree) → set_all ts (ts.entries t) ts.empty ≡ t

pub data MergedTreeId (ms : Merges) : Type 0 where
  legacy : Bytes → MergedTreeId ms
  merge : ms.Merge → MergedTreeId ms

pub record Commit (ms : Merges) : Type 0 where
  pub parents : List Bytes
  pub predecessors : List Bytes
  pub root_tree : MergedTreeId ms
  pub change_id : Bytes
  pub description : Bytes
  pub author : Signature
  pub committer : Signature
  pub secure_sig : Option SecureSig

-- The stream format of zstd.
pub record Zstd : Type 0 where
  pub encode : Bytes → Bytes
  pub decode : Bytes → Option Bytes
  pub decode-encode : (x : Bytes) → decode (encode x) ≡ some x
