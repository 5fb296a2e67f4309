-- ===== src/ContentHash/PrefixFree.antt =====
-- content_hash.rs: encodings of which none is a proper prefix of another.
use cultivate.Common.{
  ℕ, zero, suc, ◌/◌, ◌^◌, ◌<◌, ◌≡◌, refl, sym, ◌∙◌, ap, true, false, List, [], ◌∷◌, ◌++◌, Bytes,
  length, All, arith,
}
use mathlib.Core.List.{append_assoc}
use native.Mathlib.Nat.{pow-suc}
use cultivate.ContentHash.{to_le_bytes}
use cultivate.ContentHash.Encoding.{
  encode_u8, encode_bool, encode_each, encode_slice, encode_pair, encode_string, All-unit,
}

-- Among the values with `P`, an encoding followed by anything determines the value and the rest.
abbrev pub PrefixFree : {A : Type 0} → (A → Bytes) → (A → Type 0) → Type 0
PrefixFree {A} encode P =
    (x y : A) (r s : Bytes) → P x → P y → encode x ++ r ≡ encode y ++ s → (x ≡ y) × (r ≡ s)

abbrev head_or : Bytes → ℕ
head_or [] = 0
head_or (x ∷ xs) = x

abbrev rest_of : Bytes → Bytes
rest_of [] = []
rest_of (x ∷ xs) = xs

pub uncons : {x y : ℕ} {r s : Bytes} → x ∷ r ≡ y ∷ s → (x ≡ y) × (r ≡ s)
uncons h = (ap head_or h, ap rest_of h)

div-lt-pow : (w m : ℕ) → m < 256 ^ suc w → m / 256 < 256 ^ w
div-lt-pow w m p = omega (arith, pow-suc 256 w)

-- `w` bytes hold a number below `256 ^ w`.
pub to_le_bytes-PrefixFree : (w : ℕ) → PrefixFree (to_le_bytes w) (λ n. n < 256 ^ w)
unfolding to_le_bytes
to_le_bytes-PrefixFree zero m n r s p q h = (omega arith, h)
to_le_bytes-PrefixFree (suc w) m n r s p q h =
    let low = (uncons h).0 in
    let step =
      to_le_bytes-PrefixFree w (m / 256) (n / 256) r s (div-lt-pow w m p) (div-lt-pow w n q)
        (uncons h).1 in
    (omega (arith, low, step.0), step.1)

pub encode_u8-PrefixFree : PrefixFree encode_u8 (λ _. Unit)
unfolding encode_u8
encode_u8-PrefixFree x y r s p q h = uncons h

pub encode_bool-PrefixFree : PrefixFree encode_bool (λ _. Unit)
unfolding encode_bool
encode_bool-PrefixFree false false r s p q h = (refl, (uncons h).1)
encode_bool-PrefixFree true true r s p q h = (refl, (uncons h).1)
encode_bool-PrefixFree false true r s p q h = absurd (omega (arith, (uncons h).0))
encode_bool-PrefixFree true false r s p q h = absurd (omega (arith, (uncons h).0))

module _ {A : Type 0} (encode : A → Bytes) (P : A → Type 0) (free : PrefixFree encode P) where
  each :
      (xs ys : List A) (r s : Bytes)
      → length xs ≡ length ys
      → All P xs
      → All P ys
      → encode_each encode xs ++ r ≡ encode_each encode ys ++ s
      → (xs ≡ ys) × (r ≡ s)
  unfolding encode_each
  each [] [] r s e p q h = (refl, h)
  each [] (y ∷ ys) r s e p q h = absurd (omega arith)
  each (x ∷ xs) [] r s e p q h = absurd (omega arith)
  each (x ∷ xs) (y ∷ ys) r s e p q h =
      let (head, tail) =
        free x y _ _ p.0 q.0
          (sym (append_assoc (encode x) _ r) ∙ h ∙ append_assoc (encode y) _ s) in
      let (front, rest) = each xs ys r s (omega arith) p.1 q.1 tail in (cc, rest)

  -- A slice of fewer than 2 ^ 64 elements: the length in front makes the end known.
  pub encode_slice-PrefixFree :
      PrefixFree (encode_slice encode) (λ xs. (length xs < 256 ^ 8) × All P xs)
  unfolding encode_slice
  encode_slice-PrefixFree xs ys r s p q h =
      let (e, tail) = to_le_bytes-PrefixFree 8 (length xs) (length ys) _ _ p.0 q.0 (
        sym (append_assoc (to_le_bytes 8 (length xs)) _ r)
        ∙ h
        ∙ append_assoc (to_le_bytes 8 (length ys)) _ s) in
      each xs ys r s e p.1 q.1 tail

module _ {A B : Type 0} (f : A → Bytes) (P : A → Type 0) (free_f : PrefixFree f P) (g : B → Bytes)
    (Q : B → Type 0) (free_g : PrefixFree g Q) where
  pub encode_pair-PrefixFree : PrefixFree (encode_pair f g) (λ x. P x.0 × Q x.1)
  unfolding encode_pair
  encode_pair-PrefixFree x y r s p q h =
      let (first, tail) =
        free_f x.0 y.0 _ _ p.0 q.0
          (sym (append_assoc (f x.0) _ r) ∙ h ∙ append_assoc (f y.0) _ s) in
      let (second, rest) = free_g x.1 y.1 r s p.1 q.1 tail in ((λ i. (first i, second i)), rest)

pub encode_string-PrefixFree : PrefixFree encode_string (λ s. length s < 256 ^ 8)
unfolding encode_string
encode_string-PrefixFree x y r s p q h =
    encode_slice-PrefixFree encode_u8 (λ _. Unit) encode_u8-PrefixFree x y r s (p, All-unit x)
      (q, All-unit y) h
