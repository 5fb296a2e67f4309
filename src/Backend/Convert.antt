-- ===== src/Backend/Convert.antt =====
-- cli/src/backend.rs, second half: the conversions between jj's values and the messages. `none` is a
-- panic.
use cultivate.Common.{Bool, true, false, Option, none, some, List, [], ◌∷◌, Bytes, ◌>>=?◌, pos}
use cultivate.Proto
use cultivate.Jj.{
  Signature, SecureSig, TreeValue, file, symlink, tree, git_submodule, conflict, Merges, Trees,
  MergedTreeId, legacy, merge, Commit, Zstd,
}

unfoldable pub file_id_to_proto : Bytes → Proto.FileId
file_id_to_proto file_id = record { file_id = file_id }

unfoldable pub commit_id_to_proto : Bytes → Proto.CommitId
commit_id_to_proto commit_id = record { commit_id = commit_id }

unfoldable pub tree_id_to_proto : Bytes → Proto.TreeId
tree_id_to_proto tree_id = record { tree_id = tree_id }

unfoldable pub symlink_id_to_proto : Bytes → Proto.SymlinkId
symlink_id_to_proto symlink_id = record { symlink_id = symlink_id }

unfoldable pub signature_to_proto : Signature → Proto.Signature
signature_to_proto signature = record {
  name = signature.name;
  email = signature.email;
  timestamp = some (record {
    millis_since_epoch = signature.timestamp.timestamp;
    tz_offset = signature.timestamp.tz_offset;
  });
}

-- `unwrap_or_default`
abbrev timestamp_or_default : Option Proto.Timestamp → Proto.Timestamp
timestamp_or_default none = record { millis_since_epoch = pos 0; tz_offset = pos 0 }
timestamp_or_default (some t) = t

abbrev signature_or_default : Option Proto.Signature → Proto.Signature
signature_or_default none = record { name = []; email = []; timestamp = none }
signature_or_default (some s) = s

unfoldable pub signature_from_proto : Proto.Signature → Signature
signature_from_proto proto =
    let timestamp = timestamp_or_default proto.timestamp in
    record {
      name = proto.name;
      email = proto.email;
      timestamp = record {
        timestamp = timestamp.millis_since_epoch;
        tz_offset = timestamp.tz_offset;
      };
    }

module _ (ms : Merges) where
  -- the `match` on the root tree: the ids, and `uses_tree_conflict_format`
  abbrev pub root_tree_to_proto : MergedTreeId ms → List Bytes × Bool
  root_tree_to_proto (legacy tree_id) = (tree_id ∷ [], false)
  root_tree_to_proto (merge tree_ids) = (ms.iter tree_ids, true)

  unfoldable pub commit_to_proto : Commit ms → Proto.Commit
  unfolding signature_to_proto
  commit_to_proto commit = record {
    parents = commit.parents;
    predecessors = commit.predecessors;
    root_tree = (root_tree_to_proto commit.root_tree).0;
    uses_tree_conflict_format = (root_tree_to_proto commit.root_tree).1;
    change_id = commit.change_id;
    description = commit.description;
    author = some (signature_to_proto commit.author);
    committer = some (signature_to_proto commit.committer);
    secure_sig = none;
  }

  -- `assert_eq!(proto.root_tree.len(), 1)`
  abbrev pub only_one : List Bytes → Option Bytes
  only_one [] = none
  only_one (id ∷ []) = some id
  only_one (id ∷ other ∷ ids) = none

  abbrev pub root_tree_from_proto : Bool → List Bytes → Option (MergedTreeId ms)
  root_tree_from_proto true ids = ms.build ids >>=? λ m. some (merge m)
  root_tree_from_proto false ids = only_one ids >>=? λ id. some (legacy id)

  -- The signature is taken out of the message before the message is encoded.
  abbrev take_secure_sig : (Proto.Commit → Bytes) → Proto.Commit → Option Bytes → Option SecureSig
  take_secure_sig encode proto none = none
  take_secure_sig encode proto (some sig) =
      some (record { signed = encode (record proto { secure_sig = none }); sig = sig })

  unfoldable pub commit_from_proto : (Proto.Commit → Bytes) → Proto.Commit → Option (Commit ms)
  unfolding signature_from_proto
  commit_from_proto encode proto =
      root_tree_from_proto proto.uses_tree_conflict_format proto.root_tree >>=? λ root_tree.
      some (record {
        parents = proto.parents;
        predecessors = proto.predecessors;
        root_tree = root_tree;
        change_id = proto.change_id;
        description = proto.description;
        author = signature_from_proto (signature_or_default proto.author);
        committer = signature_from_proto (signature_or_default proto.committer);
        secure_sig = take_secure_sig encode proto proto.secure_sig;
      })

module _ (zstd : Zstd) where
  unfoldable pub file_to_proto : Bytes → Proto.File
  file_to_proto contents = record { «data» = zstd.encode contents }

  unfoldable pub file_from_proto : Proto.File → Option Bytes
  file_from_proto proto = zstd.decode proto.«data»

unfoldable pub symlink_to_proto : Bytes → Proto.Symlink
symlink_to_proto target = record { target = target }

unfoldable pub symlink_from_proto : Proto.Symlink → Bytes
symlink_from_proto proto = proto.target

unfoldable pub tree_value_to_proto : TreeValue → Option Proto.TreeValue
tree_value_to_proto (file id executable) =
    some (record { value = some (Proto.Value.file (record { id = id; executable = executable })) })
tree_value_to_proto (symlink id) = some (record { value = some (Proto.Value.symlink_id id) })
tree_value_to_proto (git_submodule id) = none
tree_value_to_proto (tree id) = some (record { value = some (Proto.Value.tree_id id) })
tree_value_to_proto (conflict id) = some (record { value = some (Proto.Value.conflict_id id) })

abbrev pub value_from : Proto.Value → TreeValue
value_from (Proto.Value.tree_id id) = tree id
value_from (Proto.Value.file f) = file f.id f.executable
value_from (Proto.Value.symlink_id id) = symlink id
value_from (Proto.Value.conflict_id id) = conflict id

unfoldable pub tree_value_from_proto : Proto.TreeValue → Option TreeValue
tree_value_from_proto proto = proto.value >>=? λ value. some (value_from value)

module _ (ts : Trees) where
  unfoldable pub entries_to_proto : List (ts.Component × TreeValue) → Option (List Proto.Entry)
  unfolding tree_value_to_proto
  entries_to_proto [] = some []
  entries_to_proto ((name, value) ∷ rest) = tree_value_to_proto value >>=? λ v.
      entries_to_proto rest >>=? λ others.
      some (record { name = ts.as_str name; value = some v } ∷ others)

  unfoldable pub tree_to_proto : ts.Tree → Option Proto.Tree
  unfolding entries_to_proto
  tree_to_proto t = entries_to_proto (ts.entries t) >>=? λ es. some (record { entries = es })

  -- the loop, from the tree so far
  unfoldable pub entries_from_proto : List Proto.Entry → ts.Tree → Option ts.Tree
  unfolding tree_value_from_proto
  entries_from_proto [] t = some t
  entries_from_proto (entry ∷ rest) t = entry.value >>=? λ v. tree_value_from_proto v >>=? λ value.
      ts.from entry.name >>=? λ name. entries_from_proto rest (ts.set t name value)

  unfoldable pub tree_from_proto : Proto.Tree → Option ts.Tree
  unfolding entries_from_proto
  tree_from_proto proto = entries_from_proto proto.entries ts.empty
