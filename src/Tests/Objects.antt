-- ===== src/Tests/Objects.antt =====
-- The objects, the content store and the attributes at concrete inputs.
use cultivate.Common.{
  ◌≡◌, refl, sym, bytes_eq_iff, true, false, some, List, [], ◌∷◌, Bytes, replicate, arith,
}
use cultivate.Proto
use cultivate.ContentHash.{to_le_bytes}
use cultivate.ContentHash.PrefixFree.{uncons}
use cultivate.ContentHash.Encoding.{encode_slice}
use cultivate.Object.{ObjectId, TreeEntry, file, Tree, File, empty_tree}
use cultivate.Object.Encoding.{encode_tree, tree_get_hash_lem, tree_get_hash_injective}
use cultivate.Object.Proto.{
  entries_from_proto, all_files, tree_entry_from_proto, to_array, entries_as_proto, entries_as_from,
}
use mathlib.Core.Path.{subst, ◌∙◌}
use mathlib.Core.Option.{some-injective}
use cultivate.Store.{Store, new, write_tree, write_file, get_tree}
use cultivate.Store.Laws.{
  IsAddressed, TreeWritten, FileWritten, write_tree-TreeWritten, write_tree-kept,
  write_file-FileWritten, new-IsAddressed,
}
use cultivate.Inode.Clock.{after, before, time_from_system_time, system_time_from_time, roundtrip}
use cultivate.Tests.Samples.{sample_hash, sample_store}

abbrev hello : Bytes
hello = b'h' ∷ b'i' ∷ []

abbrev file_entry : TreeEntry
file_entry = file hello true

abbrev sample_tree : Tree
sample_tree = record { entries = (b'a' ∷ [], file_entry) ∷ [] }

tree_get_hash_injective_example : sample_tree ≡ sample_tree
tree_get_hash_injective_example =
    tree_get_hash_injective sample_hash sample_tree sample_tree ((tt, tt), tt) ((tt, tt), tt)
      (omega arith, ((omega arith, omega arith), tt))
      (omega arith, ((omega arith, omega arith), tt)) (λ e. refl) refl

sample_store-new : new sample_hash ≡ some sample_store
unfolding new
sample_store-new = rw (tree_get_hash_lem sample_hash empty_tree tt) refl

sample_store-IsAddressed : IsAddressed sample_hash sample_store
sample_store-IsAddressed =
    let (s, made, addressed, found) = new-IsAddressed sample_hash in
    subst (IsAddressed sample_hash) (some-injective _ _ (sym made ∙ sample_store-new)) addressed

pub sample_store-tree : get_tree sample_store.empty_tree_id sample_store ≡ some empty_tree
unfolding get_tree
sample_store-tree =
    rw ((bytes_eq_iff sample_store.empty_tree_id sample_store.empty_tree_id).1 refl) refl

write_tree-TreeWritten_example :
    (r : ObjectId × Store) × (write_tree sample_hash sample_tree sample_store ≡ some r)
    × TreeWritten sample_hash sample_tree r.0 r.1
write_tree-TreeWritten_example =
    write_tree-TreeWritten sample_hash sample_tree sample_store ((tt, tt), tt)
      sample_store-IsAddressed

apart :
    sample_hash.hash (encode_tree sample_tree) ≡ sample_hash.hash (encode_tree empty_tree)
    → encode_tree sample_tree ≡ encode_tree empty_tree
unfolding encode_tree encode_slice to_le_bytes
apart h = absurd (omega (arith, (uncons h).0))

write_tree-kept_example :
    (r : ObjectId × Store) × (write_tree sample_hash sample_tree sample_store ≡ some r)
    × (get_tree sample_store.empty_tree_id r.1 ≡ some empty_tree)
write_tree-kept_example =
    write_tree-kept sample_hash sample_tree empty_tree sample_store.empty_tree_id sample_store
      ((tt, tt), tt) tt (omega arith, ((omega arith, omega arith), tt)) (omega arith, tt)
      sample_store-IsAddressed sample_store-tree apart

abbrev hi_file : File
hi_file = record { content = hello }

write_file-FileWritten_example :
    (r : ObjectId × Store) × (write_file sample_hash hi_file sample_store ≡ some r)
    × FileWritten sample_hash hi_file r.0 r.1
write_file-FileWritten_example =
    write_file-FileWritten sample_hash hi_file sample_store sample_store-IsAddressed

-- A store with one file, and another file that is written to it.
new-IsAddressed_example :
    (s : Store) × (new sample_hash ≡ some s)
    × IsAddressed sample_hash s
    × (get_tree s.empty_tree_id s ≡ some empty_tree)
new-IsAddressed_example = new-IsAddressed sample_hash

-- Half a second before the epoch comes back behind it.
roundtrip_example :
    system_time_from_time
      (time_from_system_time (before 0 500000000)).0
      (time_from_system_time (before 0 500000000)).1
    ≡ after 0 500000000
roundtrip_example = roundtrip (before 0 500000000) (omega arith, omega arith)

abbrev proto_entries : List Proto.Entry
proto_entries =
    record {
      name = b'a' ∷ [];
      value = some (record {
        value = some (Proto.Value.file (record { id = replicate 32 7; executable = false }));
      });
    }
    ∷ []

read_entries :
    entries_from_proto proto_entries ≡ some ((b'a' ∷ [], file (replicate 32 7) false) ∷ [])
unfolding entries_from_proto tree_entry_from_proto to_array
read_entries = refl

one_file : all_files ((b'a' ∷ [], file (replicate 32 7) false) ∷ []) ≡ true
unfolding all_files
one_file = refl

entries_as_from_example :
    entries_as_proto ((b'a' ∷ [], file (replicate 32 7) false) ∷ []) ≡ some proto_entries
entries_as_from_example =
    entries_as_from proto_entries ((b'a' ∷ [], file (replicate 32 7) false) ∷ []) read_entries
      one_file
