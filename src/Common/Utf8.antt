-- ===== src/Common/Utf8.antt =====
-- std's test for UTF-8 (`str::from_utf8`, `Path::to_str`).
use Prim.Native.Nat.{ℕ}
use mathlib.Core.Bool.{Bool, true, ◌&&◌}
use mathlib.Core.Option.{Option, none, some}
use mathlib.Core.List.{[], ◌∷◌}
use cultivate.Common.Tests.{ltb, leb, nat_eq, if◌then◌else◌}
use cultivate.Common.ByteStrings.{Bytes}

between : ℕ → ℕ → ℕ → Bool
between lo hi x = leb lo x && leb x hi

continues : ℕ → Bool
unfolding between
continues = between 0x80 0xbf

-- The second byte of a sequence of three or four that begins with `a`.
second : ℕ → ℕ → Bool
unfolding between
second a x =
    if nat_eq a 0xe0
    then between 0xa0 0xbf x
    else if nat_eq a 0xed
    then between 0x80 0x9f x
    else if nat_eq a 0xf0
    then between 0x90 0xbf x
    else if nat_eq a 0xf4
    then between 0x80 0x8f x
    else between 0x80 0xbf x

unfoldable pub is_utf8 : Bytes → Bool
unfolding between continues second
is_utf8 [] = true
is_utf8 (a ∷ []) = ltb a 0x80
is_utf8 (a ∷ x ∷ []) =
    let short = is_utf8 (x ∷ []) in if ltb a 0x80 then short else between 0xc2 0xdf a && continues x
is_utf8 (a ∷ x ∷ y ∷ []) =
    let one = is_utf8 (x ∷ y ∷ []) in
    let two = is_utf8 (y ∷ []) in
    if ltb a 0x80
    then one
    else if between 0xc2 0xdf a
    then continues x && two
    else between 0xe0 0xef a && second a x && continues y
is_utf8 (a ∷ x ∷ y ∷ z ∷ rest) =
    let one = is_utf8 (x ∷ y ∷ z ∷ rest) in
    let two = continues x && is_utf8 (y ∷ z ∷ rest) in
    let three = second a x && continues y && is_utf8 (z ∷ rest) in
    let four = second a x && continues y && continues z && is_utf8 rest in
    if ltb a 0x80
    then one
    else if between 0xc2 0xdf a
    then two
    else if between 0xe0 0xef a
    then three
    else between 0xf0 0xf4 a && four

-- `std::str::from_utf8`, and `Path::to_str` where a path is its bytes
abbrev pub from_utf8 : Bytes → Option Bytes
from_utf8 bytes = if is_utf8 bytes then some bytes else none
