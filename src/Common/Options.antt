-- ===== src/Common/Options.antt =====
-- Chains of calls that may panic (`none`).
use mathlib.Core.Path.{◌≡◌, refl}
use mathlib.Core.Option.{Option, none, some}

infixl 10 ◌>>=?◌
abbrev pub ◌>>=?◌ {ℓ κ} : {A : Type ℓ} {B : Type κ} → Option A → (A → Option B) → Option B
none >>=? f = none
some a >>=? f = f a

-- Inversion of a chain that does not panic.
pub >>=?-eq-some {ℓ κ} :
    {A : Type ℓ} {B : Type κ} (m : Option A) (f : A → Option B) {b : B}
    → (m >>=? f) ≡ some b
    → (a : A) × (m ≡ some a) × (f a ≡ some b)
>>=?-eq-some none f h = cc
>>=?-eq-some (some a) f h = (a, refl, h)
