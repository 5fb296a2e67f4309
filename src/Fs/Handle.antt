-- ===== src/Fs/Handle.antt =====
-- fs.rs: file handles. The top two bits of a handle say what it may be used for.
pub mod Bits
use Prim.Native.Nat.{bit_and, bit_or}
use cultivate.Common.{
  ℕ, ◌+◌, ◌%◌, ◌^◌, min, Bool, not, nat_eq, ltb, if◌then◌else◌, ok, pure, assert, ◌>>=◌, ◌>>◌,
}
use cultivate.Fs.{Fs, F}

abbrev pub file_handle_read_bit : ℕ
file_handle_read_bit = 2 ^ 63

abbrev pub file_handle_write_bit : ℕ
file_handle_write_bit = 2 ^ 62

-- `fetch_add` gives the value before.
unfoldable pub fetch_add_file_handle : F ℕ
fetch_add_file_handle s =
    (ok s.next_file_handle, record s { next_file_handle = (s.next_file_handle + 1) % 2 ^ 64 })

-- `if on { fh |= bit }`
unfoldable pub mark : Bool → ℕ → ℕ → ℕ
mark on bit fh = if on then bit_or fh bit else fh

unfoldable pub allocate_next_file_handle : Bool → Bool → F ℕ
unfolding fetch_add_file_handle mark
allocate_next_file_handle read write = do
  fh ← fetch_add_file_handle
  assert (ltb fh (min file_handle_read_bit file_handle_write_bit))
  pure (mark write file_handle_write_bit (mark read file_handle_read_bit fh))

unfoldable pub check_file_handle_read : ℕ → Bool
check_file_handle_read file_handle = not (nat_eq (bit_and file_handle file_handle_read_bit) 0)

unfoldable pub check_file_handle_write : ℕ → Bool
check_file_handle_write file_handle = not (nat_eq (bit_and file_handle file_handle_write_bit) 0)
