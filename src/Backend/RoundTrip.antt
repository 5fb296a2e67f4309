-- ===== src/Backend/RoundTrip.antt =====
-- cli/src/backend.rs: what is converted to a message and back.
use cultivate.Common.{
  ◌≡◌, refl, ap, sym, ◌∙◌, none, some, List, [], ◌∷◌, Bytes, >>=?-eq-some, arith,
}
use mathlib.Core.Option.{some-injective}
use cultivate.Proto
use cultivate.Jj.{TreeValue, Merges, Trees, MergedTreeId, legacy, merge, Commit, set_all, IsMap}
use cultivate.Backend.Convert.{
  signature_to_proto, signature_from_proto, commit_to_proto, commit_from_proto, tree_value_to_proto,
  tree_value_from_proto, entries_to_proto, entries_from_proto, tree_to_proto, tree_from_proto,
  root_tree_from_proto, root_tree_to_proto,
}

module _ (ms : Merges) (encode : Proto.Commit → Bytes) where
  root_tree_from-to :
      (r : MergedTreeId ms)
      → root_tree_from_proto ms (root_tree_to_proto ms r).1 (root_tree_to_proto ms r).0 ≡ some r
  root_tree_from-to (legacy id) = refl
  root_tree_from-to (merge m) = rw (ms.build-iter m) refl

  -- A commit without a signature comes back from its message as it was.
  pub commit_from-to :
      (c : Commit ms)
      → c.secure_sig ≡ none
      → commit_from_proto ms encode (commit_to_proto ms c) ≡ some c
  unfolding commit_from_proto commit_to_proto signature_from_proto signature_to_proto
  commit_from-to c unsigned =
      rw (root_tree_from-to c.root_tree)
        (let signed = sym unsigned in λ i. some (record c { secure_sig = signed i }))

value_from-to :
    (v : TreeValue) (p : Proto.TreeValue)
    → tree_value_to_proto v ≡ some p
    → tree_value_from_proto p ≡ some v
unfolding tree_value_to_proto tree_value_from_proto
value_from-to v p h = ground arith

module _ (ts : Trees) where
  entries_from-to :
      (es : List (ts.Component × TreeValue)) (ps : List Proto.Entry) (t : ts.Tree)
      → entries_to_proto ts es ≡ some ps
      → entries_from_proto ts ps t ≡ some (set_all ts es t)
  unfolding entries_to_proto entries_from_proto
  entries_from-to [] ps t h = rw (← some-injective _ _ h) refl
  entries_from-to ((c, v) ∷ es) ps t h =
      let (p, first, h₁) = >>=?-eq-some (tree_value_to_proto v) _ h in
      let (rest, others, h₂) = >>=?-eq-some (entries_to_proto ts es) _ h₁ in
      rw (← some-injective _ _ h₂, value_from-to v p first, ts.from-as_str c)
        (entries_from-to es rest (ts.set t c v) others)

  -- A tree that has a message, which is one without submodules, comes back from it as it was, if the
  -- entries of a tree make up the tree.
  pub tree_from-to :
      (t : ts.Tree) (p : Proto.Tree)
      → IsMap ts
      → tree_to_proto ts t ≡ some p
      → tree_from_proto ts p ≡ some t
  unfolding tree_to_proto tree_from_proto
  tree_from-to t p is_map h =
      let (ps, list, same) = >>=?-eq-some (entries_to_proto ts (ts.entries t)) _ h in
      rw (← some-injective _ _ same)
        (entries_from-to (ts.entries t) ps ts.empty list ∙ ap some (is_map.set_all-entries t))
