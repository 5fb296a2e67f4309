-- ===== src/Inode/Clock.antt =====
-- mount_store.rs, the conversions of times at its end.
use cultivate.Common.{
  ℕ, zero, suc, ◌+◌, ◌-◌, ◌/◌, ◌%◌, ◌^◌, ◌<◌, ◌≡◌, arith, nat_eq, ltb, if◌then◌else◌, ℤ, pos,
  negsuc, neg,
}

-- `(i64, u32)`: seconds and nanoseconds.
abbrev pub Time : Type 0
Time = ℤ × ℕ

-- std's `SystemTime`, by its distance from the epoch: `duration_since(UNIX_EPOCH)` is `Ok` of the
-- distance for `after`, and for `before` an error that holds it.
pub data SystemTime : Type 0 where
  after : ℕ → ℕ → SystemTime
  before : ℕ → ℕ → SystemTime

abbrev pub unix_epoch : SystemTime
unix_epoch = after 0 0

-- `as i64` from `u64`, and the negation of an `i64`, both with wrap-around.
unfoldable pub as_i64 : ℕ → ℤ
as_i64 n = if ltb n (2 ^ 63) then pos n else negsuc (2 ^ 64 - 1 - n)

unfoldable pub neg_i64 : ℤ → ℤ
neg_i64 (pos n) = neg n
neg_i64 (negsuc n) = if nat_eq (suc n) (2 ^ 63) then negsuc n else pos (suc n)

unfoldable pub time_from_system_time : SystemTime → Time
unfolding as_i64 neg_i64
time_from_system_time (after secs nanos) = (as_i64 secs, nanos)
time_from_system_time (before secs nanos) = (neg_i64 (as_i64 secs), nanos)

-- `Duration::new` carries whole seconds out of the nanoseconds.
abbrev billion : ℕ
billion = 1000000000

unfoldable pub system_time_from_time : ℤ → ℕ → SystemTime
system_time_from_time (pos secs) nsecs = after (secs + nsecs / billion) (nsecs % billion)
system_time_from_time (negsuc n) nsecs = before (suc n + nsecs / billion) (nsecs % billion)

-- What fits: the seconds in 63 bits, and the nanoseconds below a second.
abbrev pub InRange : SystemTime → Type 0
InRange (after secs nanos) = (secs < 2 ^ 63) × (nanos < billion)
InRange (before secs nanos) = (secs < 2 ^ 63) × (nanos < billion)

-- The last second before the epoch comes back behind it; all else comes back as it was.
abbrev pub restored : SystemTime → SystemTime
restored (before zero nanos) = after 0 nanos
restored t = t

as_i64_lem : (n : ℕ) → n < 2 ^ 63 → as_i64 n ≡ pos n
unfolding as_i64
as_i64_lem n h = ground arith

-- Converting a time in range to `(i64, u32)` and back gives the same time, but for the times less
-- than a second before the epoch, which come back as the time as far after it.
pub roundtrip :
    (t : SystemTime)
    → InRange t
    → system_time_from_time (time_from_system_time t).0 (time_from_system_time t).1 ≡ restored t
unfolding time_from_system_time system_time_from_time
roundtrip (after secs nanos) h = rw (as_i64_lem secs h.0) (ground arith)
roundtrip (before zero nanos) h = ground arith
roundtrip (before (suc secs) nanos) h = rw (as_i64_lem (suc secs) h.0) (ground arith)
