-- ===== src/ContentHash/Encoding.antt =====
-- The bytes that a value feeds to the hasher, as a function of the value alone.
use cultivate.Common.{
  ℕ, ◌≡◌, refl, Bool, true, false, Option, none, some, List, [], ◌∷◌, ◌++◌, Bytes, length, All,
  ◌>>=?◌,
}
use cultivate.ContentHash.{
  Blake3, to_le_bytes, Update, blake3, update_u8, update_bool, update_each, update_slice,
  update_pair, update_vec, update_string,
}

unfoldable pub encode_u8 : ℕ → Bytes
encode_u8 x = x ∷ []

unfoldable pub encode_bool : Bool → Bytes
encode_bool false = 0 ∷ []
encode_bool true = 1 ∷ []

module _ {A : Type 0} (encode : A → Bytes) where
  unfoldable pub encode_each : List A → Bytes
  encode_each [] = []
  encode_each (x ∷ xs) = encode x ++ encode_each xs

  unfoldable pub encode_slice : List A → Bytes
  unfolding encode_each
  encode_slice xs = to_le_bytes 8 (length xs) ++ encode_each xs

  unfoldable pub encode_option : Option A → Bytes
  encode_option none = 0 ∷ []
  encode_option (some x) = 1 ∷ encode x

unfoldable pub encode_pair : {A B : Type 0} → (A → Bytes) → (B → Bytes) → A × B → Bytes
encode_pair f g x = f x.0 ++ g x.1

unfoldable pub encode_string : Bytes → Bytes
unfolding encode_slice encode_u8
encode_string s = encode_slice encode_u8 s

pub All-unit : (xs : Bytes) → All (λ _. Unit {0}) xs
All-unit [] = tt
All-unit (x ∷ xs) = (tt, All-unit xs)

module _ (b : Blake3) where
  -- Where `P` holds the instance does not panic, and the hasher has absorbed exactly `encode x`.
  abbrev pub Absorbs : {A : Type 0} → Update b A → (A → Bytes) → (A → Type 0) → Type 0
  Absorbs {A} update encode P =
      (x : A) (state : b.Hasher) → P x → update x state ≡ some (b.update state (encode x))

  pub update_u8-Absorbs : Absorbs (update_u8 b) encode_u8 (λ _. Unit)
  unfolding update_u8 encode_u8
  update_u8-Absorbs x state h = refl

  pub update_bool-Absorbs : Absorbs (update_bool b) encode_bool (λ _. Unit)
  unfolding update_bool encode_bool
  update_bool-Absorbs false state h = refl
  update_bool-Absorbs true state h = refl

  module _ {A : Type 0} (update : Update b A) (encode : A → Bytes) (P : A → Type 0)
      (absorbs : Absorbs update encode P) where
    pub update_each-Absorbs : Absorbs (update_each b update) (encode_each encode) (All P)
    unfolding update_each encode_each
    update_each-Absorbs [] state h = rw b.update-nil
    update_each-Absorbs (x ∷ xs) state h =
        rw (absorbs x state h.0, ◌>>=?◌)
          (rw (update_each-Absorbs xs (b.update state (encode x)) h.1, b.update-update))

    pub update_slice-Absorbs : Absorbs (update_slice b update) (encode_slice encode) (All P)
    unfolding update_slice encode_slice
    update_slice-Absorbs xs state h = rw (update_each-Absorbs xs _ h, b.update-update)

    pub update_vec-Absorbs : Absorbs (update_vec b update) (encode_slice encode) (All P)
    unfolding update_vec
    update_vec-Absorbs xs state h = update_slice-Absorbs xs state h

  pub update_string-Absorbs : Absorbs (update_string b) encode_string (λ _. Unit)
  unfolding update_string encode_string
  update_string-Absorbs s state h =
      update_slice-Absorbs (update_u8 b) encode_u8 (λ _. Unit) update_u8-Absorbs s state
        (All-unit s)

  module _ {A B : Type 0} (f : Update b A) (encode_f : A → Bytes) (P : A → Type 0)
      (af : Absorbs f encode_f P) (g : Update b B) (encode_g : B → Bytes) (Q : B → Type 0)
      (ag : Absorbs g encode_g Q) where
    pub update_pair-Absorbs :
        Absorbs (update_pair b f g) (encode_pair encode_f encode_g) (λ x. P x.0 × Q x.1)
    unfolding update_pair encode_pair
    update_pair-Absorbs x state h =
        rw (af x.0 state h.0, ◌>>=?◌) (rw (ag x.1 _ h.1, b.update-update))

  -- The hash of a value is the one-call hash of its encoding.
  pub blake3-Absorbs :
      {A : Type 0} (update : Update b A) (encode : A → Bytes) (P : A → Type 0)
      → Absorbs update encode P
      → (x : A) → P x
      → blake3 b update x ≡ some (b.hash (encode x))
  unfolding blake3
  blake3-Absorbs update encode P absorbs x h = rw (absorbs x b.new h, ◌>>=?◌) (rw b.finalize-update)
