-- ===== src/Common/Bits.antt =====
-- Single bits of `&` and `|` at every position, as arithmetic.
use Prim.Native.Nat.{
  ℕ, zero, suc, ◌+◌, ◌*◌, ◌/◌, ◌%◌, ◌^◌, ◌≤◌, min, max, digits, bit_and, bit_or, bit_and-bitwise,
  bit_or-bitwise,
}
use mathlib.Core.Path.{◌≡◌, refl, ap}
use native.Mathlib.Nat.{pow-suc, div-div-eq-div-mul}
use native.Mathlib.Omega.{arith}

-- The digit recursion gives the same on any two amounts of fuel that suffice.
enough_digits :
    (base : ℕ → ℕ) (op : ℕ → ℕ → ℕ) (n m a b : ℕ)
    → a ≤ n
    → a ≤ m
    → digits base op n a b ≡ digits base op m a b
enough_digits base op zero zero a b p q = refl
enough_digits base op zero (suc m) zero b p q = refl
enough_digits base op zero (suc m) (suc a) b p q = absurd (omega arith)
enough_digits base op (suc n) zero zero b p q = refl
enough_digits base op (suc n) zero (suc a) b p q = absurd (omega arith)
enough_digits base op (suc n) (suc m) zero b p q = refl
enough_digits base op (suc n) (suc m) (suc a) b p q =
    ap (λ (t : ℕ). t * 2 + op (suc a % 2) (b % 2))
      (enough_digits base op n m (suc a / 2) (b / 2) (omega arith) (omega arith))

pub bit_or_step : (a b : ℕ) → bit_or a b ≡ bit_or (a / 2) (b / 2) * 2 + max (a % 2) (b % 2)
bit_or_step zero b = omega (arith, bit_or-bitwise 0 b, bit_or-bitwise 0 (b / 2))
bit_or_step (suc a) b = omega (
  arith,
  bit_or-bitwise (suc a) b,
  bit_or-bitwise (suc a / 2) (b / 2),
  enough_digits (λ y. y) max a (suc a / 2) (suc a / 2) (b / 2) (omega arith) (omega arith),
)

pub bit_and_step : (a b : ℕ) → bit_and a b ≡ bit_and (a / 2) (b / 2) * 2 + min (a % 2) (b % 2)
bit_and_step zero b = omega (arith, bit_and-bitwise 0 b, bit_and-bitwise 0 (b / 2))
bit_and_step (suc a) b = omega (
  arith,
  bit_and-bitwise (suc a) b,
  bit_and-bitwise (suc a / 2) (b / 2),
  enough_digits (λ _. zero) min a (suc a / 2) (suc a / 2) (b / 2) (omega arith) (omega arith),
)

and_zero_below : (n a : ℕ) → a ≤ n → bit_and a 0 ≡ 0
and_zero_below n zero h = refl
and_zero_below zero (suc a) h = absurd (omega arith)
and_zero_below (suc n) (suc a) h =
    omega (arith, bit_and_step (suc a) 0, and_zero_below n (suc a / 2) (omega arith))

or_zero_below : (n a : ℕ) → a ≤ n → bit_or a 0 ≡ a
or_zero_below n zero h = refl
or_zero_below zero (suc a) h = absurd (omega arith)
or_zero_below (suc n) (suc a) h =
    omega (arith, bit_or_step (suc a) 0, or_zero_below n (suc a / 2) (omega arith))

-- The bit at position `k`.
abbrev pub bit : ℕ → ℕ → ℕ
bit k a = a / 2 ^ k % 2

two_pow : (k : ℕ) → 2 ^ suc k ≡ 2 * 2 ^ k
two_pow k = omega (arith, pow-suc 2 k)

bit-suc : (k a : ℕ) → bit (suc k) a ≡ bit k (a / 2)
bit-suc k a = rw (two_pow k) (rw div-div-eq-div-mul)

pub bit_and_pow : (k a : ℕ) → bit_and a (2 ^ k) ≡ bit k a * 2 ^ k
bit_and_pow zero a = omega (arith, bit_and_step a 1, and_zero_below (a / 2) (a / 2) (omega arith))
bit_and_pow (suc k) a =
    rw (bit-suc, two_pow k) (ground (arith, bit_and_step a (2 * 2 ^ k), bit_and_pow k (a / 2)))

-- Setting a bit that is clear adds it.
pub bit_or_pow : (k a : ℕ) → bit k a ≡ 0 → bit_or a (2 ^ k) ≡ a + 2 ^ k
bit_or_pow zero a h = omega (arith, bit_or_step a 1, or_zero_below (a / 2) (a / 2) (omega arith))
bit_or_pow (suc k) a h =
    rw (two_pow k)
      (ground (arith, bit_or_step a (2 * 2 ^ k), bit_or_pow k (a / 2) (rw (← bit-suc k a) h)))
