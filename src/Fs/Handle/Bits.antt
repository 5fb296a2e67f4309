-- ===== src/Fs/Handle/Bits.antt =====
-- What a file handle says.
use Prim.Native.Nat.{bit_and}
use cultivate.Common.{
  ◌>>=◌, ℕ, ◌+◌, ◌*◌, ◌/◌, ◌%◌, ◌^◌, ◌<◌, ◌≡◌, refl, Bool, true, false, ok, arith, not, nat_eq,
}
use native.Mathlib.Nat.{one-mul, zero-mul}
use cultivate.Common.Bits.{bit_and_pow, bit_or_pow}
use cultivate.Fs.{Fs}
use cultivate.Fs.Handle.{
  file_handle_read_bit, file_handle_write_bit, mark, allocate_next_file_handle,
  check_file_handle_read, check_file_handle_write,
}

-- The counter with the two rights.
abbrev pub flag : Bool → ℕ
flag true = 1
flag false = 0

mark_lem : (on : Bool) (k fh : ℕ) → fh / 2 ^ k % 2 ≡ 0 → mark on (2 ^ k) fh ≡ fh + flag on * 2 ^ k
unfolding mark
mark_lem true k fh h = omega (arith, bit_or_pow k fh h)
mark_lem false k fh h = omega arith

both :
    (read write : Bool) (fh : ℕ)
    → fh < 2 ^ 62
    → mark write file_handle_write_bit (mark read file_handle_read_bit fh)
      ≡ fh + flag read * 2 ^ 63 + flag write * 2 ^ 62
both read write fh h =
    rw (mark_lem read 63 fh (omega arith))
      (rw (mark_lem write 62 (fh + flag read * 2 ^ 63) (clear_write read)) refl)
  where
    clear_write : (on : Bool) → (fh + flag on * 2 ^ 63) / 2 ^ 62 % 2 ≡ 0
    clear_write true = omega arith
    clear_write false = omega arith

-- The test of one bit.
tested :
    (k fh : ℕ) (on : Bool)
    → fh / 2 ^ k % 2 ≡ flag on
    → 0 < 2 ^ k
    → not (nat_eq (bit_and fh (2 ^ k)) 0) ≡ on
tested k fh true h p = rw (bit_and_pow k fh, h) (ground (arith, one-mul (2 ^ k)))
tested k fh false h p = rw (bit_and_pow k fh, h) (ground (arith, zero-mul (2 ^ k)))

read_bit :
    (read write : Bool) (fh : ℕ)
    → fh < 2 ^ 62
    → (fh + flag read * 2 ^ 63 + flag write * 2 ^ 62) / 2 ^ 63 % 2 ≡ flag read
read_bit read write fh h = ground arith

write_bit :
    (read write : Bool) (fh : ℕ)
    → fh < 2 ^ 62
    → (fh + flag read * 2 ^ 63 + flag write * 2 ^ 62) / 2 ^ 62 % 2 ≡ flag write
write_bit read write fh h = ground arith

low_bits :
    (read write : Bool) (fh : ℕ)
    → fh < 2 ^ 62
    → (fh + flag read * 2 ^ 63 + flag write * 2 ^ 62) % 2 ^ 62 ≡ fh
low_bits read write fh h = ground arith

module _ (s : Fs) (read write : Bool) where
  -- While the handle counter is below 2 ^ 62, a new handle is allocated without a panic, the two
  -- checks say of it exactly the rights it was allocated with, and its low 62 bits are the counter,
  -- which is advanced.
  pub handle_rights :
      s.next_file_handle < 2 ^ 62
      → (fh : ℕ) × (allocate_next_file_handle read write s
          ≡ (ok fh, record s { next_file_handle = s.next_file_handle + 1 }))
        × (check_file_handle_read fh ≡ read)
        × (check_file_handle_write fh ≡ write)
        × (fh % 2 ^ 62 ≡ s.next_file_handle)
  unfolding allocate_next_file_handle check_file_handle_read check_file_handle_write ◌>>=◌
  handle_rights h =
      let fh = s.next_file_handle in
      (
        fh + flag read * 2 ^ 63 + flag write * 2 ^ 62,
        rw (both read write fh h) (ground arith),
        tested 63 _ read (read_bit read write fh h) (omega arith),
        tested 62 _ write (write_bit read write fh h) (omega arith),
        low_bits read write fh h,
      )
