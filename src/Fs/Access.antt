-- ===== src/Fs/Access.antt =====
-- fs.rs: permission checks.
pub mod Bits
use Prim.Native.Nat.{bit_and}
use cultivate.Common.{ℕ, ◌-◌, ◌/◌, ◌^◌, Bool, true, nat_eq, if◌then◌else◌, pure, throw}
use cultivate.Errno.{eacces}
use cultivate.Inode.{InodeAttributes}
use cultivate.Fs.{F, Request}

-- libc's `F_OK`, `R_OK`, `W_OK`, `X_OK`
abbrev pub f_ok : ℕ
f_ok = 0

abbrev pub r_ok : ℕ
r_ok = 4

abbrev pub w_ok : ℕ
w_ok = 2

abbrev pub x_ok : ℕ
x_ok = 1

-- `access_mask -= access_mask & bits`
abbrev pub clear : ℕ → ℕ → ℕ
clear bits access_mask = access_mask - bit_and access_mask bits

-- The callers' masks are not negative, so a mask is a number here.
unfoldable pub check_access : ℕ → ℕ → ℕ → ℕ → ℕ → ℕ → Bool
check_access file_uid file_gid file_mode uid gid access_mask =
    if nat_eq access_mask f_ok
    then true
    else if nat_eq uid 0
    then nat_eq
        (clear file_mode
          (clear (file_mode / 2 ^ 3) (clear (file_mode / 2 ^ 6) (bit_and access_mask x_ok))))
        0
    else if nat_eq uid file_uid
    then nat_eq (clear (file_mode / 2 ^ 6) access_mask) 0
    else if nat_eq gid file_gid
    then nat_eq (clear (file_mode / 2 ^ 3) access_mask) 0
    else nat_eq (clear file_mode access_mask) 0

-- `if !check_access(...) { reply.error(libc::EACCES); return; }`
unfoldable pub require_access : Request → InodeAttributes → ℕ → F (Unit {0})
require_access req attrs access_mask =
    if check_access attrs.uid attrs.gid attrs.mode req.uid req.gid access_mask
    then pure tt
    else throw eacces
