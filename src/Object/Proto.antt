-- ===== src/Object/Proto.antt =====
-- The conversions of store.rs between the objects and the wire messages. `none` is a panic.
use cultivate.Common.{
  Bool-cases, inl, inr, ℕ, ◌≡◌, refl, ap, Bool, true, false, Option, none, some, List, [], ◌∷◌,
  Bytes, length, nat_eq, ◌>>=?◌, >>=?-eq-some, if◌then◌else◌, arith, ◌&&◌, &&-both, ◌∙◌,
}
use cultivate.Proto
use mathlib.Core.Option.{some-injective}
use cultivate.Object.{
  TreeEntry, file, tree_id, symlink_id, conflict_id, Tree, Symlink, File, empty_symlink, empty_file,
}

-- `try_into().unwrap()` into `[u8; n]`
unfoldable pub to_array : ℕ → Bytes → Option Bytes
to_array n id = if nat_eq (length id) n then some id else none

-- the arms other than `File` are `todo!()`
unfoldable pub tree_entry_as_proto : TreeEntry → Option Proto.TreeValue
tree_entry_as_proto (file id executable) =
    some (record { value = some (Proto.Value.file (record { id = id; executable = executable })) })
tree_entry_as_proto _ = none

-- the loop over `self.entries`
unfoldable pub entries_as_proto : List (Bytes × TreeEntry) → Option (List Proto.Entry)
unfolding tree_entry_as_proto
entries_as_proto [] = some []
entries_as_proto ((name, entry) ∷ rest) = tree_entry_as_proto entry >>=? λ value.
    entries_as_proto rest >>=? λ others. some (record { name = name; value = some value } ∷ others)

unfoldable pub tree_as_proto : Tree → Option Proto.Tree
unfolding entries_as_proto
tree_as_proto t = entries_as_proto t.entries >>=? λ entries. some (record { entries = entries })

unfoldable pub value_from_proto : Proto.Value → Option TreeEntry
unfolding to_array
value_from_proto (Proto.Value.tree_id id) = to_array 32 id >>=? λ id'. some (tree_id id')
value_from_proto (Proto.Value.symlink_id id) = to_array 32 id >>=? λ id'. some (symlink_id id')
value_from_proto (Proto.Value.conflict_id id) = to_array 32 id >>=? λ id'. some (conflict_id id')
value_from_proto (Proto.Value.file f) = to_array 32 f.id >>=? λ id'. some (file id' f.executable)

unfoldable pub tree_entry_from_proto : Proto.TreeValue → Option TreeEntry
unfolding value_from_proto
tree_entry_from_proto proto = proto.value >>=? value_from_proto

unfoldable pub entries_from_proto : List Proto.Entry → Option (List (Bytes × TreeEntry))
unfolding tree_entry_from_proto
entries_from_proto [] = some []
entries_from_proto (entry ∷ rest) = entry.value >>=? λ proto_val.
    tree_entry_from_proto proto_val >>=? λ value.
    entries_from_proto rest >>=? λ others. some ((entry.name, value) ∷ others)

unfoldable pub tree_from_proto : Proto.Tree → Option Tree
unfolding entries_from_proto
tree_from_proto proto =
    entries_from_proto proto.entries >>=? λ entries. some (record { entries = entries })

unfoldable pub symlink_as_proto : Symlink → Proto.Symlink
symlink_as_proto s = record { target = s.target }

unfoldable pub symlink_from_proto : Proto.Symlink → Symlink
symlink_from_proto proto = record empty_symlink { target = proto.target }

unfoldable pub file_as_proto : File → Proto.File
file_as_proto f = record { «data» = f.content }

unfoldable pub file_from_proto : Proto.File → File
file_from_proto proto = record empty_file { content = proto.«data» }

-- The entries that `as_proto` is written for.
unfoldable pub is_file : TreeEntry → Bool
is_file (file id executable) = true
is_file _ = false

unfoldable pub all_files : List (Bytes × TreeEntry) → Bool
unfolding is_file
all_files [] = true
all_files ((name, entry) ∷ rest) = is_file entry && all_files rest

-- One entry from the wire and back.
entry_as_from :
    (p : Proto.TreeValue) (e : TreeEntry)
    → tree_entry_from_proto p ≡ some e
    → is_file e ≡ true
    → tree_entry_as_proto e ≡ some p
unfolding tree_entry_from_proto tree_entry_as_proto is_file to_array
entry_as_from p (file id x) h f = ground arith
entry_as_from p e h f = cc

-- Entries read from the wire without a panic, all of them files, are written back as the same messages.
pub entries_as_from :
    (ps : List Proto.Entry) (es : List (Bytes × TreeEntry))
    → entries_from_proto ps ≡ some es
    → all_files es ≡ true
    → entries_as_proto es ≡ some ps
unfolding entries_from_proto entries_as_proto all_files
entries_as_from [] es h f = ground arith
entries_as_from (p ∷ ps) es h f =
    let (v, present, h₁) = >>=?-eq-some p.value _ h in
    let (e, entry, h₂) = >>=?-eq-some (tree_entry_from_proto v) _ h₁ in
    let (rest, others, h₃) = >>=?-eq-some (entries_from_proto ps) _ h₂ in
    let list = some-injective _ _ h₃ in
    let files = &&-both (is_file e) (all_files rest) (ap all_files list ∙ f) in
    let first = entry_as_from v e entry files.0 in
    rw (← list, first, ◌>>=?◌, entries_as_from ps rest others files.1, ← present)

-- Writing entries to the wire panics wherever one of them is not a file: the arm is `todo!()`.
entries_as_proto_todo :
    (es : List (Bytes × TreeEntry)) → all_files es ≡ false → entries_as_proto es ≡ none
unfolding all_files entries_as_proto
entries_as_proto_todo [] h = cc
entries_as_proto_todo ((n, file id x) ∷ es) h = rw (entries_as_proto_todo es h)
entries_as_proto_todo ((n, e) ∷ es) h = refl

-- A whole tree, both ways: with nothing but files it goes back to the message it came from, and with
-- any other entry it goes nowhere.
pub tree_as_from :
    (p : Proto.Tree) (t : Tree)
    → tree_from_proto p ≡ some t
    → tree_as_proto t ≡ (if all_files t.entries then some p else none)
unfolding tree_from_proto tree_as_proto
tree_as_from p t h =
    let (es, read, same) = >>=?-eq-some (entries_from_proto p.entries) _ h in
    let list = ap (λ (t : Tree). t.entries) (some-injective _ _ same) in
    elim (Bool-cases (all_files t.entries)) [
      | inl files ↦
          let written = entries_as_from p.entries es read (ap all_files list ∙ files) in
          rw (files, ← list, written) refl
      | inr other ↦ rw (other, entries_as_proto_todo t.entries other) refl
    ]
