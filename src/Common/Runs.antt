-- ===== src/Common/Runs.antt =====
-- What a call gives back: a value, an error code, or a panic of the thread. A stateful call
-- returns the state beside it, since what was written before an error or a panic stays written.
use mathlib.Core.Bool.{Bool, true, false}
use mathlib.Core.Option.{Option, none, some}

pub data Outcome {ℓ} (E A : Type ℓ) : Type ℓ where
  ok : A → Outcome E A
  err : E → Outcome E A
  panic : Outcome E A

abbrev pub Run {ℓ} : Type ℓ → Type ℓ → Type ℓ → Type ℓ
Run S E A = S → Outcome E A × S

module _ {ℓ} {S E A : Type ℓ} where
  abbrev pub pure : A → Run S E A
  pure a s = (ok a, s)

  abbrev pub throw : E → Run S E A
  throw e s = (err e, s)

  abbrev pub abort : Run S E A
  abort s = (panic, s)

module _ {ℓ} {S E A B : Type ℓ} where
  abbrev pub continue : Outcome E A → (A → Run S E B) → Run S E B
  continue (ok a) f s = f a s
  continue (err e) f s = (err e, s)
  continue panic f s = (panic, s)

  infixl 10 ◌>>=◌ ◌>>◌
  -- It is shut, so that a proof about a block sees its calls one by one.
  unfoldable pub ◌>>=◌ : Run S E A → (A → Run S E B) → Run S E B
  ◌>>=◌ m f s = let (r, s') = m s in continue r f s'

  abbrev pub ◌>>◌ : Run S E A → Run S E B → Run S E B
  m >> n = m >>= λ _. n

module _ {ℓ} {S E A : Type ℓ} where
  -- A call that panics where there is no value (`unwrap`, `expect`).
  abbrev pub unwrap : Option A → Run S E A
  unwrap none s = (panic, s)
  unwrap (some a) s = (ok a, s)

  -- A call whose error is looked at and not passed on (`if let Ok(x)`, `is_ok()`).
  abbrev pub attempt_result : Outcome E A → S → Outcome E (Option A) × S
  attempt_result (ok a) s = (ok (some a), s)
  attempt_result (err e) s = (ok none, s)
  attempt_result panic s = (panic, s)

  abbrev pub attempt : Run S E A → Run S E (Option A)
  attempt m s = let (r, s') = m s in attempt_result r s'

module _ {ℓ} {S E : Type ℓ} where
  -- `assert!`
  abbrev pub assert : Bool → Run S E (Unit {ℓ})
  assert true s = (ok tt, s)
  assert false s = (panic, s)

  abbrev pub gets : {A : Type ℓ} → (S → A) → Run S E A
  gets f s = (ok (f s), s)

  abbrev pub modify : (S → S) → Run S E (Unit {ℓ})
  modify f s = (ok tt, f s)
