-- ===== src/HashMap.antt =====
-- std's `HashMap`. The program iterates over none of its maps, so a map is the function that `get`
-- computes.
use cultivate.Common.{Option, none, some, MapKey, ◌==◌, if◌then◌else◌}

abbrev pub HashMap {ℓ} : Type ℓ → Type ℓ → Type ℓ
HashMap K V = K → Option V

module _ {ℓ} {K V : Type ℓ} where
  abbrev pub empty : HashMap K V
  empty k = none

  abbrev pub insert : ⦃key : MapKey K⦄ → K → V → HashMap K V → HashMap K V
  insert k v m j = if k == j then some v else m j
