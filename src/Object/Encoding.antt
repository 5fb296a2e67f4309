-- ===== src/Object/Encoding.antt =====
-- store.rs: the bytes that an object's hash is the hash of.
use cultivate.Common.{
  ◌^◌, ◌<◌, ◌≡◌, sym, ap, ◌∙◌, some, [], ◌∷◌, ◌++◌, Bytes, length, All, arith, ◌>>=?◌,
}
use mathlib.Core.Option.{some-injective}
use mathlib.Core.List.{append_assoc}
use cultivate.ContentHash.{Blake3, update_u8, update_slice}
use cultivate.ContentHash.Encoding.{
  encode_u8, encode_bool, encode_slice, encode_pair, encode_string, Absorbs, update_u8-Absorbs,
  update_bool-Absorbs, update_slice-Absorbs, update_vec-Absorbs, update_string-Absorbs,
  update_pair-Absorbs, blake3-Absorbs, All-unit,
}
use cultivate.ContentHash.PrefixFree.{
  PrefixFree, uncons, encode_string-PrefixFree, encode_slice-PrefixFree, encode_pair-PrefixFree,
  encode_bool-PrefixFree,
}
use cultivate.Object.{
  TreeEntry, file, tree_id, symlink_id, conflict_id, Tree, Symlink, File, update_tree_entry,
  update_tree, update_symlink, update_file, tree_get_hash, symlink_get_hash, file_get_hash,
}

unfoldable pub encode_tree_entry : TreeEntry → Bytes
unfolding encode_string encode_bool
encode_tree_entry (file id executable) = b'0' ∷ encode_string id ++ encode_bool executable
encode_tree_entry (tree_id id) = b'1' ∷ encode_string id
encode_tree_entry (symlink_id id) = b'2' ∷ encode_string id
encode_tree_entry (conflict_id id) = []

unfoldable pub encode_tree : Tree → Bytes
unfolding encode_slice encode_pair encode_string encode_tree_entry
encode_tree t = encode_slice (encode_pair encode_string encode_tree_entry) t.entries

-- The entries that the store can hash: all but conflicts.
abbrev pub Hashable : TreeEntry → Type 0
Hashable (conflict_id id) = ⊥
Hashable _ = Unit

abbrev pub HashableTree : Tree → Type 0
HashableTree t = All (λ (e : Bytes × TreeEntry). Unit {0} × Hashable e.1) t.entries

module _ (b : Blake3) where
  id-Absorbs : Absorbs b (update_slice b (update_u8 b)) encode_string (λ _. Unit)
  unfolding encode_string
  id-Absorbs id state h =
      update_slice-Absorbs b (update_u8 b) encode_u8 (λ _. Unit) (update_u8-Absorbs b) id state
        (All-unit id)

  tree_entry-Absorbs : Absorbs b (update_tree_entry b) encode_tree_entry Hashable
  unfolding update_tree_entry encode_tree_entry
  tree_entry-Absorbs (file id executable) state h =
      rw (id-Absorbs id _ tt, ◌>>=?◌)
        (rw (update_bool-Absorbs b executable _ tt, b.update-update, b.update-update))
  tree_entry-Absorbs (tree_id id) state h = rw (id-Absorbs id _ tt, b.update-update)
  tree_entry-Absorbs (symlink_id id) state h = rw (id-Absorbs id _ tt, b.update-update)
  tree_entry-Absorbs (conflict_id id) state h = absurd h

  tree-Absorbs : Absorbs b (update_tree b) encode_tree HashableTree
  unfolding update_tree encode_tree
  tree-Absorbs t state h =
      update_vec-Absorbs b _ _ _
        (update_pair-Absorbs b _ _ _ (update_string-Absorbs b) _ _ _ tree_entry-Absorbs) t.entries
        state h

  -- The hash of a tree without conflicts is the one-call hash of its encoding.
  pub tree_get_hash_lem :
      (t : Tree) → HashableTree t → tree_get_hash b t ≡ some (b.hash (encode_tree t))
  unfolding tree_get_hash
  tree_get_hash_lem t h = blake3-Absorbs b (update_tree b) encode_tree HashableTree tree-Absorbs t h

  file-Absorbs : Absorbs b (update_file b) (λ f. encode_string f.content) (λ _. Unit)
  unfolding update_file encode_string
  file-Absorbs f state h =
      update_vec-Absorbs b _ _ _ (update_u8-Absorbs b) f.content state (All-unit f.content)

  pub file_get_hash_lem : (f : File) → file_get_hash b f ≡ some (b.hash (encode_string f.content))
  unfolding file_get_hash
  file_get_hash_lem f = blake3-Absorbs b (update_file b) _ _ file-Absorbs f tt

  symlink-Absorbs : Absorbs b (update_symlink b) (λ s. encode_string s.target) (λ _. Unit)
  unfolding update_symlink
  symlink-Absorbs s state h = update_string-Absorbs b s.target state tt

  pub symlink_get_hash_lem :
      (s : Symlink) → symlink_get_hash b s ≡ some (b.hash (encode_string s.target))
  unfolding symlink_get_hash
  symlink_get_hash_lem s = blake3-Absorbs b (update_symlink b) _ _ symlink-Absorbs s tt

-- Within the sizes of the machine: every length fits in 64 bits.
abbrev pub EntryFits : TreeEntry → Type 0
EntryFits (file id executable) = length id < 256 ^ 8
EntryFits (tree_id id) = length id < 256 ^ 8
EntryFits (symlink_id id) = length id < 256 ^ 8
EntryFits (conflict_id id) = ⊥

abbrev pub TreeFits : Tree → Type 0
TreeFits t =
    (length t.entries < 256 ^ 8)
    × All (λ (e : Bytes × TreeEntry). (length e.0 < 256 ^ 8) × EntryFits e.1) t.entries

tree_entry-PrefixFree : PrefixFree encode_tree_entry EntryFits
unfolding encode_tree_entry
tree_entry-PrefixFree (file i x) (file j y) r s p q h =
    let first = encode_string-PrefixFree i j _ _ p q (
      sym (append_assoc (encode_string i) _ r)
      ∙ (uncons h).1
      ∙ append_assoc (encode_string j) _ s) in
    let second = encode_bool-PrefixFree x y r s tt tt first.1 in
    ((λ k. file (first.0 k) (second.0 k)), second.1)
tree_entry-PrefixFree (tree_id i) (tree_id j) r s p q h =
    let e = encode_string-PrefixFree i j r s p q (uncons h).1 in (ap tree_id e.0, e.1)
tree_entry-PrefixFree (symlink_id i) (symlink_id j) r s p q h =
    let e = encode_string-PrefixFree i j r s p q (uncons h).1 in (ap symlink_id e.0, e.1)
tree_entry-PrefixFree (conflict_id i) y r s p q h = absurd p
tree_entry-PrefixFree x (conflict_id j) r s p q h = absurd q
tree_entry-PrefixFree x y r s p q h = absurd (omega (arith, (uncons h).0))

-- Two trees with the same encoding are the same.
pub encode_tree_injective :
    (t u : Tree) → TreeFits t → TreeFits u → encode_tree t ≡ encode_tree u → t ≡ u
unfolding encode_tree
encode_tree_injective t u p q h =
    let e =
      encode_slice-PrefixFree _ _
        (encode_pair-PrefixFree _ _ encode_string-PrefixFree _ _ tree_entry-PrefixFree) t.entries
        u.entries [] [] p q (ap (λ l. l ++ []) h) in
    λ i. record { entries = e.0 i }

pub encode_string_injective :
    (x y : Bytes)
    → length x < 256 ^ 8
    → length y < 256 ^ 8
    → encode_string x ≡ encode_string y
    → x ≡ y
encode_string_injective x y p q h = (encode_string-PrefixFree x y [] [] p q (ap (λ l. l ++ []) h)).0

-- Trees without conflicts whose sizes fit into 64 bits are equal when their hashes are, if the hash
-- function does not send their two encodings, when these differ, to the same hash.
pub tree_get_hash_injective :
    (b : Blake3) (t u : Tree)
    → HashableTree t
    → HashableTree u
    → TreeFits t
    → TreeFits u
    → (b.hash (encode_tree t) ≡ b.hash (encode_tree u) → encode_tree t ≡ encode_tree u)
    → tree_get_hash b t ≡ tree_get_hash b u
    → t ≡ u
tree_get_hash_injective b t u ht hu ft fu apart h =
    encode_tree_injective t u ft fu
      (apart (some-injective _ _ (sym (tree_get_hash_lem b t ht) ∙ h ∙ tree_get_hash_lem b u hu)))
