-- ===== src/Common/Int.antt =====
-- The signed integers of the source (`i32`, `i64`): the sign is written out.
use Prim.Native.Nat.{ℕ, zero, suc, ◌-◌, ◌^◌}

-- `negsuc n` is -(n + 1).
pub data ℤ : Type 0 where
  pos : ℕ → ℤ
  negsuc : ℕ → ℤ

abbrev pub neg : ℕ → ℤ
neg zero = pos 0
neg (suc n) = negsuc n

-- The bit pattern of a `w`-bit integer in two's complement, for a value in its range.
abbrev pub twos_complement : ℕ → ℤ → ℕ
twos_complement w (pos n) = n
twos_complement w (negsuc n) = 2 ^ w - suc n
