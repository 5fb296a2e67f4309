-- ===== src/BTreeMap.antt =====
-- std's `BTreeMap` over byte strings: the entries in the order of the keys, as an iteration gives
-- them. A look-up compares with every key, which in a sorted list finds what the search tree finds.
use Prim.Native.Nat.{Ordering}
use cultivate.Common.{
  ◌≡◌, Option, none, some, List, [], ◌∷◌, refl, arith, if◌then◌else◌, Bytes, bytes_compare,
  bytes_eq, bytes_eq_iff,
}

abbrev pub BTreeMap : Type 0 → Type 0
BTreeMap V = List (Bytes × V)

module _ {V : Type 0} where
  unfoldable pub get : Bytes → BTreeMap V → Option V
  get k [] = none
  get k ((j, v) ∷ m) = if bytes_eq j k then some v else get k m

  unfoldable pub insert : Bytes → V → BTreeMap V → BTreeMap V
  insert k v [] = (k, v) ∷ []
  insert k v ((j, w) ∷ m) = elim (bytes_compare k j) [
    | Ordering.lt ↦ (k, v) ∷ (j, w) ∷ m
    | Ordering.eq ↦ (j, v) ∷ m
    | Ordering.gt ↦ (j, w) ∷ insert k v m
  ]

  unfoldable pub remove : Bytes → BTreeMap V → BTreeMap V
  remove k [] = []
  remove k ((j, w) ∷ m) = let rest = remove k m in if bytes_eq j k then rest else (j, w) ∷ rest

  pub get-insert :
      (k j : Bytes) (v : V) (m : BTreeMap V)
      → get j (insert k v m) ≡ (if bytes_eq k j then some v else get j m)
  unfolding get insert bytes_eq
  get-insert k j v [] = refl
  get-insert k j v ((i, w) ∷ m) =
      ground (arith, bytes_eq_iff k j, bytes_eq_iff k i, bytes_eq_iff i j, get-insert k j v m)

  pub get-remove :
      (k j : Bytes) (m : BTreeMap V) → get j (remove k m) ≡ (if bytes_eq k j then none else get j m)
  unfolding get remove
  get-remove k j [] = ground arith
  get-remove k j ((i, w) ∷ m) =
      ground (arith, bytes_eq_iff k j, bytes_eq_iff i k, bytes_eq_iff i j, get-remove k j m)
