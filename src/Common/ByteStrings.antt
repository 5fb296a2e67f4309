-- ===== src/Common/ByteStrings.antt =====
-- Byte strings (`Vec<u8>`, `OsStr`, `String` by its UTF-8 bytes) and their lexicographic order.
use Prim.Native.Nat.{ℕ, compare, Ordering}
use mathlib.Core.Path.{◌≡◌, refl}
use mathlib.Core.Logic.{◌↔◌}
use mathlib.Core.Bool.{Bool, true, false}
use mathlib.Core.List.{List, [], ◌∷◌}
use native.Mathlib.Omega.{arith}
use cultivate.Common.Tests.{MapKey}

abbrev pub Bytes : Type 0
Bytes = List ℕ

-- The `Ord` of `[u8]`.
unfoldable pub bytes_compare : Bytes → Bytes → Ordering
bytes_compare [] [] = Ordering.eq
bytes_compare [] (y ∷ ys) = Ordering.lt
bytes_compare (x ∷ xs) [] = Ordering.gt
bytes_compare (x ∷ xs) (y ∷ ys) = elim (compare x y) [
  | Ordering.lt ↦ Ordering.lt
  | Ordering.gt ↦ Ordering.gt
  | Ordering.eq ↦ bytes_compare xs ys
]

unfoldable pub bytes_eq : Bytes → Bytes → Bool
unfolding bytes_compare
bytes_eq a b = elim (bytes_compare a b) [ Ordering.eq ↦ true | _ ↦ false ]

bytes_eq_refl : (a : Bytes) → bytes_eq a a ≡ true
unfolding bytes_eq
bytes_eq_refl [] = refl
bytes_eq_refl (x ∷ xs) = ground (arith, bytes_eq_refl xs)

bytes_eq-eq : (a b : Bytes) → bytes_eq a b ≡ true → a ≡ b
unfolding bytes_eq
bytes_eq-eq [] [] h = refl
bytes_eq-eq [] (y ∷ ys) h = ground arith
bytes_eq-eq (x ∷ xs) [] h = ground arith
bytes_eq-eq (x ∷ xs) (y ∷ ys) h = ground (arith, bytes_eq-eq xs ys)

pub bytes_eq_iff : (a b : Bytes) → (bytes_eq a b ≡ true) ↔ (a ≡ b)
bytes_eq_iff a b = (bytes_eq-eq a b, λ e. rw e (bytes_eq_refl b))

instance abbrev pub bytes_key : MapKey Bytes
bytes_key = record { matches = bytes_eq; matches_iff = bytes_eq_iff }
