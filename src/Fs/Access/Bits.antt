-- ===== src/Fs/Access/Bits.antt =====
-- What `check_access` decides, by the permission bits.
use Prim.Native.Nat.{bit_and, bit_and-bitwise}
use cultivate.Common.{
  ℕ, ◌/◌, ◌^◌, ◌<◌, ◌≤◌, ◌≡◌, ◌≢◌, ◌↔◌, max, refl, true, nat_eq, nat_eq_iff, if◌then◌else◌, arith,
  Bool-cases, inl, inr, ◌-◌, min,
}
use cultivate.Common.Bits.{bit, bit_and_step, bit_and_pow}
use cultivate.Fs.Access.{check_access, clear}

-- Every permission that the mask asks for (read 4, write 2, execute 1) is among the bits.
abbrev pub Covers : ℕ → ℕ → Type 0
Covers bits mask = (bit 0 mask ≤ bit 0 bits) × (bit 1 mask ≤ bit 1 bits) × (bit 2 mask ≤ bit 2 bits)

zero-bit_and : (m q : ℕ) → m < 8 → bit_and (m / 2 / 2 / 2) q ≡ 0
zero-bit_and m q h =
    let e : m / 2 / 2 / 2 ≡ 0 = omega arith in rw e (omega (arith, bit_and-bitwise 0 q))

clear_lem : (bits mask : ℕ) → mask < 8 → (nat_eq (clear bits mask) 0 ≡ true) ↔ Covers bits mask
clear_lem bits mask h =
    let first = bit_and_step mask bits in
    let second = bit_and_step (mask / 2) (bits / 2) in
    let third = bit_and_step (mask / 2 / 2) (bits / 2 / 2) in
    let none = zero-bit_and mask (bits / 2 / 2 / 2) h in
    (
      λ e. let zero = (nat_eq_iff _ 0).0 e in omega (arith, zero),
      λ c. (nat_eq_iff _ 0).1 (omega (arith, c.0, c.1, c.2)),
    )

-- The bits of the class that the user falls into.
abbrev pub class_bits : ℕ → ℕ → ℕ → ℕ → ℕ → ℕ
class_bits file_uid file_gid file_mode uid gid =
    if nat_eq uid file_uid
    then file_mode / 2 ^ 6
    else if nat_eq gid file_gid
    then file_mode / 2 ^ 3
    else file_mode

user_access :
    (file_uid file_gid file_mode uid gid access_mask : ℕ)
    → uid ≢ 0
    → check_access file_uid file_gid file_mode uid gid access_mask ≡ (
        if nat_eq access_mask 0
        then true
        else nat_eq (clear (class_bits file_uid file_gid file_mode uid gid) access_mask) 0)
unfolding check_access
user_access file_uid file_gid file_mode uid gid access_mask user = ground arith

-- A user other than root has access exactly if the bits of its class (owner, group or others) cover
-- the mask, for a mask of three bits.
pub check_access-Covers :
    (file_uid file_gid file_mode uid gid access_mask : ℕ)
    → uid ≢ 0
    → access_mask < 8
    → (check_access file_uid file_gid file_mode uid gid access_mask ≡ true)
      ↔ Covers (class_bits file_uid file_gid file_mode uid gid) access_mask
check_access-Covers file_uid file_gid file_mode uid gid access_mask user small =
    let bits = class_bits file_uid file_gid file_mode uid gid in
    rw (user_access file_uid file_gid file_mode uid gid access_mask user)
      (elim (Bool-cases (nat_eq access_mask 0)) [
        | inl none ↦
            let zero = (nat_eq_iff access_mask 0).0 none in
            rw none ((λ e. omega (arith, zero)), (λ c. refl))
        | inr some ↦ rw some (clear_lem bits access_mask small)
      ])

-- A mask of one bit.
bit_and_one_bit : (m p : ℕ) → m < 2 → bit_and m p ≡ min m (bit 0 p)
bit_and_one_bit m p h =
    let none : m / 2 ≡ 0 = omega arith in
    let zero : bit_and (m / 2) (p / 2) ≡ 0 = rw none (omega (arith, bit_and-bitwise 0 (p / 2))) in
    omega (arith, bit_and_step m p, zero)

root_mask :
    (m p q r : ℕ)
    → m < 2
    → clear r (clear q (clear p m)) ≡ m - max (bit 0 p) (max (bit 0 q) (bit 0 r))
root_mask m p q r h =
    let first = bit_and_one_bit m p h in
    let second = bit_and_one_bit (clear p m) q (omega arith) in
    let third = bit_and_one_bit (clear q (clear p m)) r (omega arith) in
    omega (arith, first, second, third)

x_bit : (m : ℕ) → bit_and m 1 ≡ bit 0 m
x_bit m = omega (arith, bit_and_pow 0 m)

-- Root has access exactly if it does not ask to execute, or anyone may execute.
pub check_access_root :
    (file_uid file_gid file_mode gid access_mask : ℕ)
    → (check_access file_uid file_gid file_mode 0 gid access_mask ≡ true)
      ↔ (bit 0 access_mask ≤ max (bit 6 file_mode) (max (bit 3 file_mode) (bit 0 file_mode)))
unfolding check_access
check_access_root file_uid file_gid file_mode gid access_mask =
    let cleared =
      root_mask (bit_and access_mask 1) (file_mode / 2 ^ 6) (file_mode / 2 ^ 3) file_mode
        (omega (arith, x_bit access_mask)) in
    elim (Bool-cases (nat_eq access_mask 0)) [
      | inl none ↦
          let zero = (nat_eq_iff access_mask 0).0 none in
          rw none ((λ e. omega (arith, zero)), (λ c. refl))
      | inr some ↦ rw some (
        λ e. let z = (nat_eq_iff _ 0).0 e in omega (arith, z, cleared, x_bit access_mask),
        λ c. (nat_eq_iff _ 0).1 (omega (arith, c, cleared, x_bit access_mask)),
      )
    ]
