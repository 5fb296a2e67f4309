-- ===== src/Tests/Daemons.antt =====
-- Stand-ins for the code around the daemon and its client, and a daemon with one working copy.
use cultivate.Common.{
  ◌≡◌, refl, ◌∙◌, sym, true, false, none, some, List, [], ◌∷◌, ◌++◌, Bytes, bytes_key,
}
use mathlib.Core.List.{append_assoc, append-nil}
use cultivate.HashMap
use cultivate.Daemon.{Daemon, Platform, Status, internal}
use cultivate.Mount.{Mount}
use cultivate.Service.{Prost}
use cultivate.Client.{Server}
use cultivate.Client.Served.{daemon}
use cultivate.Jj.{Merges, Trees, IsMap, TreeValue, set_all, Zstd}
use cultivate.Tests.Samples.{sample_hash, sample_store}

-- A message is its text, and a commit its description.
abbrev pub sample_prost : Prost
sample_prost = record {
  encode_file = λ f. f.«data»;
  encode_symlink = λ l. l.target;
  encode_commit = λ c. c.description;
}

abbrev pub willing : Platform
willing = record { is_dir = λ p. true; session_starts = λ p. true }

abbrev pub no_answer : Status
no_answer = internal []

abbrev pub sample_server : Server
sample_server = daemon sample_hash sample_prost willing

abbrev pub home : Bytes
home = b'/' ∷ b'w' ∷ []

abbrev pub sample_mount : Mount
sample_mount = record {
  nodes = HashMap.empty;
  directories = HashMap.empty;
  next_inode = 1;
  op_id = none;
  workspace_id = none;
  tree_id = sample_store.empty_tree_id;
  readings = 0;
}

abbrev pub sample_daemon : Daemon
sample_daemon = record {
  store = sample_store;
  mounts = HashMap.insert home sample_mount HashMap.empty;
  fuse_sessions = [];
  poisoned = λ l. false;
}

-- Compression that puts a byte in front.
abbrev pub framed_zstd : Zstd
framed_zstd = record {
  encode = λ x. 40 ∷ x;
  decode = λ x. elim x [ [] ↦ none | y ∷ ys ↦ some ys ];
  decode-encode = λ x. refl;
}

-- A merge is the list of its ids.
abbrev pub list_merges : Merges
list_merges = record {
  Merge = List Bytes;
  iter = λ m. m;
  build = some;
  build-iter = λ m. refl;
  build_one = λ id. (id ∷ [], refl, refl);
}

-- A tree is the list of its entries.
abbrev pub list_trees : Trees
list_trees = record {
  Component = Bytes;
  as_str = λ c. c;
  from = some;
  Tree = List (Bytes × TreeValue);
  empty = [];
  set = λ t c v. t ++ (c, v) ∷ [];
  entries = λ t. t;
  from-as_str = λ c. refl;
}

set_all-append : (es t : List (Bytes × TreeValue)) → set_all list_trees es t ≡ t ++ es
set_all-append [] t = sym (append-nil t)
set_all-append ((c, v) ∷ es) t =
    set_all-append es (t ++ (c, v) ∷ []) ∙ append_assoc t ((c, v) ∷ []) es

pub list_trees-IsMap : IsMap list_trees
list_trees-IsMap = record { set_all-entries = λ t. set_all-append t [] }
