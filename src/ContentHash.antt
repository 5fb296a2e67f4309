-- ===== src/ContentHash.antt =====
-- content_hash.rs: the trait `ContentHash` and its instances for the types of std.
--
-- The crate `blake3` is a parameter, `Blake3`, with what its documentation says. An instance of the
-- trait is a function `Update A`: the value, the hasher before, and the hasher after, or `none` where
-- the code panics. A generic instance takes the instances of its parts as arguments.
pub mod Encoding
pub mod PrefixFree
pub mod HashMaps
use cultivate.Common.{
  ℕ, zero, suc, ◌/◌, ◌%◌, ◌≡◌, Bool, true, false, Option, none, some, List, [], ◌∷◌, ◌++◌, Bytes,
  bytes_compare, length, ℤ, twos_complement, ◌>>=?◌,
}
use Prim.Native.Nat.{Ordering}
use cultivate.BTreeMap.{BTreeMap}

-- `blake3::Hasher` absorbs bytes, in any number of calls; `hash` is the one-call form. An output has
-- 32 bytes.
pub record Blake3 : Type 1 where
  pub Hasher : Type 0
  pub new : Hasher
  pub update : Hasher → Bytes → Hasher
  pub finalize : Hasher → Bytes
  pub hash : Bytes → Bytes
  pub update-nil : (h : Hasher) → update h [] ≡ h
  pub update-update : (h : Hasher) (a b : Bytes) → update (update h a) b ≡ update h (a ++ b)
  pub finalize-update : (a : Bytes) → finalize (update new a) ≡ hash a
  pub length-hash : (a : Bytes) → length (hash a) ≡ 32

-- `to_le_bytes` of a `w`-byte word.
unfoldable pub to_le_bytes : ℕ → ℕ → Bytes
to_le_bytes zero n = []
to_le_bytes (suc w) n = (n % 256) ∷ to_le_bytes w (n / 256)

module _ (b : Blake3) where
  abbrev pub Update : Type 0 → Type 0
  Update A = A → b.Hasher → Option b.Hasher

  unfoldable pub blake3 : {A : Type 0} → Update A → A → Option Bytes
  blake3 update x = update x b.new >>=? λ hasher. some (b.finalize hasher)

  unfoldable pub update_unit : Update (Unit {0})
  update_unit x state = some state

  unfoldable pub update_u8 : Update ℕ
  update_u8 x state = some (b.update state (x ∷ []))

  unfoldable pub update_bool : Update Bool
  unfolding update_u8
  update_bool false state = update_u8 0 state
  update_bool true state = update_u8 1 state

  unfoldable pub update_i32 : Update ℤ
  update_i32 x state = some (b.update state (to_le_bytes 4 (twos_complement 32 x)))

  unfoldable pub update_i64 : Update ℤ
  update_i64 x state = some (b.update state (to_le_bytes 8 (twos_complement 64 x)))

  module _ {A : Type 0} (update : Update A) where
    -- the loop `for x in self { x.update(state); }`
    unfoldable pub update_each : Update (List A)
    update_each [] state = some state
    update_each (x ∷ xs) state = update x state >>=? update_each xs

    unfoldable pub update_slice : Update (List A)
    unfolding update_each
    update_slice xs state = update_each xs (b.update state (to_le_bytes 8 (length xs)))

    unfoldable pub update_option : Update (Option A)
    update_option none state = some (b.update state (0 ∷ []))
    update_option (some x) state = update x (b.update state (1 ∷ []))

  unfoldable pub update_pair : {A B : Type 0} → Update A → Update B → Update (A × B)
  update_pair f g x state = f x.0 state >>=? g x.1

  unfoldable pub update_vec : {A : Type 0} → Update A → Update (List A)
  unfolding update_slice
  update_vec update xs state = update_slice update xs state

  -- A `String` is its UTF-8 bytes.
  unfoldable pub update_string : Update Bytes
  unfolding update_slice update_u8
  update_string s state = update_slice update_u8 s state

  -- A map with ordered keys; the loop runs over the entries in order.
  unfoldable pub update_btree_map : {V : Type 0} → Update Bytes → Update V → Update (BTreeMap V)
  unfolding update_each update_pair
  update_btree_map f g m state =
      update_each (update_pair f g) m (b.update state (to_le_bytes 8 (length m)))

module _ {A : Type 0} (key : A → Bytes) where
  abbrev pub insert_by_key : A → List A → List A
  insert_by_key x [] = x ∷ []
  insert_by_key x (y ∷ ys) = elim (bytes_compare (key x) (key y)) [
    | Ordering.gt ↦ y ∷ insert_by_key x ys
    | _ ↦ x ∷ y ∷ ys
  ]

  -- `sort_unstable_by_key`, whose result is only one where the keys are distinct
  unfoldable pub sort_by_key : List A → List A
  sort_by_key [] = []
  sort_by_key (x ∷ xs) = insert_by_key x (sort_by_key xs)

module _ (b : Blake3) where
  -- A `HashMap` or `HashSet` is the list of what its `iter` gives, in the order of that run.
  unfoldable pub update_hash_map :
      {V : Type 0} → Update b Bytes → Update b V → Update b (List (Bytes × V))
  unfolding update_each update_pair sort_by_key
  update_hash_map f g m state =
      update_each b (update_pair b f g) (sort_by_key (λ e. e.0) m)
        (b.update state (to_le_bytes 8 (length m)))

  unfoldable pub update_hash_set : Update b Bytes → Update b (List Bytes)
  unfolding update_each sort_by_key
  update_hash_set f m state =
      update_each b f (sort_by_key (λ k. k) m) (b.update state (to_le_bytes 8 (length m)))
