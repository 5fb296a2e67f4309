-- ===== src/ContentHash/HashMaps.antt =====
-- content_hash.rs: the hashes of std's hash maps and sets, which have no order of their own.
use Prim.Native.Nat.{Ordering}
use mathlib.Core.List.{Permᴰ, Pairwise, mem-cons_self}
use mathlib.Core.List.Permᴰ as Reordered
use mathlib.Core.HLevel.{¬_prop}
use cultivate.Common.{
  ◌≡◌, ◌≢◌, refl, sym, ap, ◌∙◌, List, [], ◌∷◌, Bytes, bytes_compare, length, arith,
}
use cultivate.ContentHash.{
  Blake3, Update, insert_by_key, sort_by_key, update_hash_map, update_hash_set,
}

flip : Ordering → Ordering
flip Ordering.lt = Ordering.gt
flip Ordering.eq = Ordering.eq
flip Ordering.gt = Ordering.lt

bytes_compare-flip : (a b : Bytes) → bytes_compare a b ≡ flip (bytes_compare b a)
unfolding bytes_compare flip
bytes_compare-flip [] [] = refl
bytes_compare-flip [] (y ∷ ys) = refl
bytes_compare-flip (x ∷ xs) [] = refl
bytes_compare-flip (x ∷ xs) (y ∷ ys) = ground (arith, bytes_compare-flip xs ys)

bytes_compare-eq : (a b : Bytes) → bytes_compare a b ≡ Ordering.eq → a ≡ b
unfolding bytes_compare
bytes_compare-eq [] [] e = refl
bytes_compare-eq [] (y ∷ ys) e = cc
bytes_compare-eq (x ∷ xs) [] e = cc
bytes_compare-eq (x ∷ xs) (y ∷ ys) e = ground (arith, bytes_compare-eq xs ys)

bytes_compare-gt_trans :
    (a b c : Bytes)
    → bytes_compare a b ≡ Ordering.gt
    → bytes_compare b c ≡ Ordering.gt
    → bytes_compare a c ≡ Ordering.gt
unfolding bytes_compare
bytes_compare-gt_trans [] [] c e f = cc
bytes_compare-gt_trans [] (y ∷ b) c e f = cc
bytes_compare-gt_trans (x ∷ a) [] [] e f = refl
bytes_compare-gt_trans (x ∷ a) [] (z ∷ c) e f = cc
bytes_compare-gt_trans (x ∷ a) (y ∷ b) [] e f = refl
bytes_compare-gt_trans (x ∷ a) (y ∷ b) (z ∷ c) e f = ground (arith, bytes_compare-gt_trans a b c)

module _ {A : Type 0} (key : A → Bytes) where
  insert_by_key_comm :
      (x y : A) (l : List A)
      → key x ≢ key y
      → insert_by_key key x (insert_by_key key y l) ≡ insert_by_key key y (insert_by_key key x l)
  unfolding flip
  insert_by_key_comm x y [] apart =
      ground (arith, bytes_compare-flip (key x) (key y), bytes_compare-eq (key x) (key y))
  insert_by_key_comm x y (z ∷ l) apart = ground (
    arith,
    bytes_compare-flip (key x) (key y),
    bytes_compare-eq (key x) (key y),
    bytes_compare-flip (key x) (key z),
    bytes_compare-flip (key y) (key z),
    bytes_compare-eq (key x) (key z),
    bytes_compare-eq (key y) (key z),
    bytes_compare-gt_trans (key x) (key z) (key y),
    bytes_compare-gt_trans (key y) (key z) (key x),
    insert_by_key_comm x y l apart,
  )

  abbrev pub HasDistinctKeys : List A → Type 0
  HasDistinctKeys l = Pairwise (λ x y. key x ≢ key y) l

  distinct-Permᴰ : {l m : List A} → Permᴰ l m → HasDistinctKeys l → HasDistinctKeys m
  distinct-Permᴰ p h = Reordered.pairwise (λ x y. ¬_prop) (λ x y n e. n (sym e)) p h

  -- Sorting forgets the order.
  sort_by_key-Permᴰ :
      {l m : List A} → Permᴰ l m → HasDistinctKeys l → sort_by_key key l ≡ sort_by_key key m
  unfolding sort_by_key
  sort_by_key-Permᴰ Permᴰ.nil h = refl
  sort_by_key-Permᴰ (Permᴰ.cons {a} {b} {l₁} {l₂} e p) (Pairwise.cons h t) =
      ap (λ x. insert_by_key key x (sort_by_key key l₁)) e
      ∙ ap (insert_by_key key b) (sort_by_key-Permᴰ p t)
  sort_by_key-Permᴰ (Permᴰ.swap {a} {b} {a'} {b'} {l} e f) (Pairwise.cons h t) =
      insert_by_key_comm a b (sort_by_key key l) (h b mem-cons_self)
      ∙ ap (λ x. insert_by_key key x (insert_by_key key a (sort_by_key key l))) f
      ∙ ap (λ x. insert_by_key key a' (insert_by_key key x (sort_by_key key l))) e
  sort_by_key-Permᴰ (Permᴰ.trans p q) h =
      sort_by_key-Permᴰ p h ∙ sort_by_key-Permᴰ q (distinct-Permᴰ p h)

length-Permᴰ : {A : Type 0} {l m : List A} → Permᴰ l m → length l ≡ length m
length-Permᴰ Permᴰ.nil = refl
length-Permᴰ (Permᴰ.cons e p) = omega (arith, length-Permᴰ p)
length-Permᴰ (Permᴰ.swap e f) = refl
length-Permᴰ (Permᴰ.trans p q) = length-Permᴰ p ∙ length-Permᴰ q

-- The hash of a hash map, and of a hash set, does not depend on the order in which an iteration gives
-- its entries, which have distinct keys: two orders of the same entries bring the hasher from any
-- state to the same state.
pub hash_map_order :
    (b : Blake3) {V : Type 0} (f : Update b Bytes) (g : Update b V) (l m : List (Bytes × V))
    (k n : List Bytes) (state : b.Hasher)
    → HasDistinctKeys (λ (e : Bytes × V). e.0) l
    → Permᴰ l m
    → HasDistinctKeys (λ (x : Bytes). x) k
    → Permᴰ k n
    → (update_hash_map b f g l state ≡ update_hash_map b f g m state)
      × (update_hash_set b f k state ≡ update_hash_set b f n state)
unfolding update_hash_map update_hash_set
hash_map_order b f g l m k n state keys same distinct equal = (
  rw (sort_by_key-Permᴰ (λ e. e.0) same keys, length-Permᴰ same) refl,
  rw (sort_by_key-Permᴰ (λ x. x) equal distinct, length-Permᴰ equal) refl,
)
