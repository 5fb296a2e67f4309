-- ===== src/Tests/Hashing.antt =====
-- The hash of a hash map and a hash set at concrete inputs.
use mathlib.Core.List.{Permᴰ, Pairwise-pair}
use mathlib.Core.HLevel.{¬_prop}
use cultivate.Common.{◌≡◌, ◌≢◌, refl, [], ◌∷◌, Bytes, arith}
use cultivate.ContentHash.{update_string, update_hash_map, update_hash_set}
use cultivate.ContentHash.HashMaps.{hash_map_order}
use cultivate.Tests.Samples.{sample_hash}

abbrev first : Bytes
first = b'a' ∷ []

abbrev second : Bytes
second = b'b' ∷ []

first-second : first ≢ second
first-second e = absurd (grind arith)

hash_map_order_example :
    (update_hash_map sample_hash
        (update_string sample_hash)
        (update_string sample_hash)
        ((first, second) ∷ (second, first) ∷ [])
        []
      ≡ update_hash_map sample_hash
          (update_string sample_hash)
          (update_string sample_hash)
          ((second, first) ∷ (first, second) ∷ [])
          [])
    × (update_hash_set sample_hash (update_string sample_hash) (first ∷ second ∷ []) []
        ≡ update_hash_set sample_hash (update_string sample_hash) (second ∷ first ∷ []) [])
hash_map_order_example =
    hash_map_order sample_hash (update_string sample_hash) (update_string sample_hash)
      ((first, second) ∷ (second, first) ∷ []) ((second, first) ∷ (first, second) ∷ [])
      (first ∷ second ∷ []) (second ∷ first ∷ []) []
      ((Pairwise-pair (λ x y. ¬_prop)).1 first-second) (Permᴰ.swap refl refl)
      ((Pairwise-pair (λ x y. ¬_prop)).1 first-second) (Permᴰ.swap refl refl)
