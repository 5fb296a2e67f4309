-- ===== src/Fs/Content/Cursor.antt =====
-- fs.rs: what a write at a position of a content leaves of it.
use cultivate.Common.{
  ℕ, ◌+◌, ◌-◌, ◌≡◌, max, List, ◌++◌, Bytes, length, take, drop, replicate, length-append,
  length-take, length-drop, length-replicate, arith, drop-append, take-append,
}
use mathlib.Core.Path.{subst}
use mathlib.Core.List.{append_assoc}
use cultivate.Fs.Content.{cursor_write}

-- The file grows to the end of what was written, and never shrinks.
pub length-cursor_write :
    (content : Bytes) (position : ℕ) (bytes : Bytes)
    → length (cursor_write content position bytes) ≡ max (length content) (position + length bytes)
unfolding cursor_write
length-cursor_write content position bytes = omega (
  arith,
  length-append (take position content) (
      replicate (position - length content) 0 ++ (bytes ++ drop (position + length bytes) content)),
  length-append (replicate (position - length content) 0)
      (bytes ++ drop (position + length bytes) content),
  length-append bytes (drop (position + length bytes) content),
  length-take position content,
  length-replicate {A = ℕ} (position - length content) 0,
  length-drop (position + length bytes) content,
)

drop-length-append : {A : Type 0} (n : ℕ) (xs ys : List A) → length xs ≡ n → drop n (xs ++ ys) ≡ ys
drop-length-append n xs ys h = rw (← h) (drop-append xs ys)

-- The bytes stand where they were written.
cursor_write-there :
    (content : Bytes) (position : ℕ) (bytes : Bytes)
    → take (length bytes) (drop position (cursor_write content position bytes)) ≡ bytes
unfolding cursor_write
cursor_write-there content position bytes =
    let front = take position content ++ replicate (position - length content) 0 in
    let size : length front ≡ position = omega (
      arith,
      length-append (take position content) (replicate (position - length content) 0),
      length-take position content,
      length-replicate {A = ℕ} (position - length content) 0,
    ) in
    rw
      (
        ← append_assoc (take position content) (replicate (position - length content) 0)
            (bytes ++ drop (position + length bytes) content),
        drop-length-append position front (bytes ++ drop (position + length bytes) content) size,
      )
      (take-append bytes (drop (position + length bytes) content))

-- What stood behind them is left.
cursor_write-behind :
    (content : Bytes) (position : ℕ) (bytes : Bytes)
    → drop (position + length bytes) (cursor_write content position bytes)
      ≡ drop (position + length bytes) content
unfolding cursor_write
cursor_write-behind content position bytes =
    let zeros = replicate (position - length content) 0 in
    let rest = drop (position + length bytes) content in
    let front = (take position content ++ zeros) ++ bytes in
    let size : length front ≡ position + length bytes = omega (
      arith,
      length-append (take position content ++ zeros) bytes,
      length-append (take position content) zeros,
      length-take position content,
      length-replicate {A = ℕ} (position - length content) 0,
    ) in
    rw
      (
        ← append_assoc (take position content) zeros (bytes ++ rest),
        ← append_assoc (take position content ++ zeros) bytes rest,
      )
      (drop-length-append (position + length bytes) front rest size)

-- What stood before them is left, and a gap is zeros.
cursor_write-before :
    (content : Bytes) (position : ℕ) (bytes : Bytes)
    → take position (cursor_write content position bytes)
      ≡ take position content ++ replicate (position - length content) 0
unfolding cursor_write
cursor_write-before content position bytes =
    let zeros = replicate (position - length content) 0 in
    let front = take position content ++ zeros in
    let rest = bytes ++ drop (position + length bytes) content in
    let size : length front ≡ position = omega (
      arith,
      length-append (take position content) zeros,
      length-take position content,
      length-replicate {A = ℕ} (position - length content) 0,
    ) in
    rw (← append_assoc (take position content) zeros rest)
      (subst (λ n. take n (front ++ rest) ≡ front) size (take-append front rest))

-- Writing bytes at a position of a content: the content is then as long as it was, or reaches to the
-- end of the written bytes if that is further; the bytes are found at the position; behind their end
-- the content is as it was; and before the position it is as it was, then zeros if it did not reach to
-- there.
pub cursor_write-Overlay :
    (content : Bytes) (position : ℕ) (bytes : Bytes)
    → (length (cursor_write content position bytes)
        ≡ max (length content) (position + length bytes))
      × (take (length bytes) (drop position (cursor_write content position bytes)) ≡ bytes)
      × (drop (position + length bytes) (cursor_write content position bytes)
          ≡ drop (position + length bytes) content)
      × (take position (cursor_write content position bytes)
          ≡ take position content ++ replicate (position - length content) 0)
cursor_write-Overlay content position bytes = (
  length-cursor_write content position bytes,
  cursor_write-there content position bytes,
  cursor_write-behind content position bytes,
  cursor_write-before content position bytes,
)
