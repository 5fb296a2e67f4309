-- ===== src/Fs/Content/Laws.antt =====
-- fs.rs: what `write` stores and `read` gives.
use cultivate.Common.{
  Option-cases, Bool-cases, inl, inr, sym, ◌∙◌, nat_eq, nat_eq_iff, bytes_eq, panic, ◌≢◌, ◌>>=?◌, ℕ,
  ◌+◌, ◌-◌, ◌%◌, ◌^◌, ◌<◌, ◌≤◌, ◌≡◌, refl, min, max, true, Option, none, some, List, [], ◌∷◌, ◌++◌,
  Bytes, length, take, replicate, ok, pos, ◌>>=◌, arith, zero, suc, ap, bytes_eq_iff, if◌then◌else◌,
  leb,
}
use mathlib.Core.Option
use mathlib.Core.Option.{some-injective, none-ne-some}
use cultivate.ContentHash.{Blake3}
use cultivate.ContentHash.Encoding.{encode_string}
use cultivate.Object.{ObjectId, File, empty_file}
use cultivate.Object.Encoding.{file_get_hash_lem}
use cultivate.Inode.Clock.{SystemTime, time_from_system_time}
use cultivate.Inode.{
  update_last_metadata_changed, update_last_modified, set_hash, Inode, InodeAttributes,
}
use cultivate.Mount
use cultivate.Store.{Store}
use cultivate.Fs.{Fs, on_mount, set_inode}
use cultivate.Fs.Handle.{check_file_handle_read, check_file_handle_write}
use cultivate.Fs.Content.{
  base_file, read_length, read_buffer, read_node, read, cursor_write, grown, write_node, write,
}
use cultivate.Fs.Content.Cursor.{length-cursor_write}

nat_eq_refl : (n : ℕ) → nat_eq n n ≡ true
nat_eq_refl n = (nat_eq_iff n n).1 refl

bytes_eq_refl : (x : Bytes) → bytes_eq x x ≡ true
bytes_eq_refl x = (bytes_eq_iff x x).1 refl

min-suc : (m n : ℕ) → min (suc m) (suc n) ≡ suc (min m n)
min-suc m n = omega arith

min-zero : (n : ℕ) → min zero n ≡ zero
min-zero n = omega arith

take-min : {A : Type 0} (n : ℕ) (xs : List A) → take (min n (length xs)) xs ≡ take n xs
take-min zero xs = rw (min-zero (length xs)) refl
take-min (suc n) [] = ground arith
take-min (suc n) (x ∷ xs) = rw (min-suc n (length xs)) (ap (λ t. x ∷ t) (take-min n xs))

sub-zero : (n : ℕ) → n - 0 ≡ n
sub-zero n = omega arith

-- From the start of a file of fewer than 2 ^ 32 bytes.
read_buffer-start :
    (content : Bytes) (size : ℕ)
    → length content < 2 ^ 32
    → read_buffer content 0 (read_length (length content) 0 size) ≡ some (take size content)
unfolding read_buffer read_length
read_buffer-start content size h =
    let n : read_length (length content) 0 size ≡ min size (length content) = omega arith in
    rw n (rw (sub-zero (min size (length content))) (ground (arith, take-min size content)))

-- What a file descriptor of the store holds for an inode.
abbrev pub Contains : Fs → Inode → Bytes → Type 0
Contains s i content =
    (a : InodeAttributes) × (h : ObjectId) × (f : File) × (s.mount.nodes i ≡ some a)
    × (a.hash ≡ some h)
    × (s.store.files h ≡ some f)
    × (f.content ≡ content)

pub read_start :
    (i : Inode) (fh size : ℕ) (content : Bytes) (s : Fs)
    → Contains s i content
    → length content < 2 ^ 32
    → check_file_handle_read fh ≡ true
    → read i fh (pos 0) size s ≡ (ok (take size content), s)
unfolding read read_node on_mount Mount.get_inode ◌>>=◌
read_start i fh size content s (a, h, f, node, hash, found, same) small granted =
    let result : read_buffer f.content 0 (read_length (length f.content) 0 size)
        ≡ some (take size content) =
      rw same (read_buffer-start content size small) in
    rw granted (rw node (rw hash (rw found (rw result refl))))

read_buffer-offset :
    (content : Bytes) (offset n : ℕ)
    → n ≤ length content
    → read_buffer content offset n
      ≡ (if leb offset n then some (replicate offset 0 ++ take (n - offset) content) else none)
unfolding read_buffer
read_buffer-offset content offset n h = ground arith

-- A read of a file that was never written panics: it has no hash yet.
pub read-unwritten :
    (i : Inode) (fh offset size : ℕ) (a : InodeAttributes) (s : Fs)
    → s.mount.nodes i ≡ some a
    → a.hash ≡ none
    → check_file_handle_read fh ≡ true
    → read i fh (pos offset) size s ≡ (panic, s)
unfolding read read_node on_mount Mount.get_inode ◌>>=◌
read-unwritten i fh offset size a s node bare granted = rw (granted, node, bare) refl

-- A read at an offset of a file of fewer than 2 ^ 32 bytes, through a handle that may read: the reply is as long as it should be, but holds `offset` zeros and then the
-- start of the file, and where the offset is above the number of bytes to read the handler panics.
pub read_offset :
    (i : Inode) (fh offset size : ℕ) (content : Bytes) (s : Fs)
    → Contains s i content
    → length content < 2 ^ 32
    → check_file_handle_read fh ≡ true
    → read i fh (pos offset) size s ≡ (
      if leb offset (min size (length content - offset))
          then ok (replicate offset 0 ++ take (min size (length content - offset) - offset) content)
          else panic,
      s,
    )
unfolding read read_node on_mount Mount.get_inode ◌>>=◌
read_offset i fh offset size content s (a, h, f, node, hash, found, same) small granted =
    let n : read_length (length f.content) offset size ≡ min size (length content - offset) =
      rw same (omega arith) in
    let buffer =
      read_buffer-offset f.content offset (min size (length content - offset))
        (rw same (omega arith)) in
    rw granted (
      rw node (
        rw hash (
          rw found (
            rw n (
              rw buffer (elim (Bool-cases (leb offset (min size (length content - offset)))) [
                | inl fits ↦ rw fits (rw same refl)
                | inr beyond ↦ rw beyond refl
              ]))))))

-- The bytes that a node has: none before the first write.
abbrev content_at : Store → Option ObjectId → Option Bytes
content_at store none = some []
content_at store (some h) = Option.map (λ (f : File). f.content) (store.files h)

unfoldable pub content_of : Fs → Inode → Option Bytes
content_of s i = s.mount.nodes i >>=? λ a. content_at s.store a.hash

-- What a write leaves.
pub record Written (s t : Fs) (i : Inode) (content : Bytes) (size : ℕ) : Type 0 where
  pub contains : Contains t i content
  pub sized : (a : InodeAttributes) × (t.mount.nodes i ≡ some a) × (a.size ≡ size)
  pub others : (j : Inode) → j ≢ i → t.mount.nodes j ≡ s.mount.nodes j

base_file_lem :
    (i : Inode) (a : InodeAttributes) (content : Bytes) (s : Fs)
    → s.mount.nodes i ≡ some a
    → content_of s i ≡ some content
    → (f : File) × (base_file a.hash s ≡ (ok f, s)) × (f.content ≡ content)
unfolding content_of ◌>>=◌
base_file_lem i a content s node present =
    by_hash a.hash (sym (ap (λ o. o >>=? λ c. content_at s.store c.hash) node) ∙ present)
  where
    by_hash :
        (o : Option ObjectId)
        → content_at s.store o ≡ some content
        → (f : File) × (base_file o s ≡ (ok f, s)) × (f.content ≡ content)
    by_hash none e = (empty_file, refl, some-injective _ _ e)
    by_hash (some h) e = elim (Option-cases (s.store.files h)) [
      | inl missing ↦
          absurd (none-ne-some _ (sym (ap (Option.map (λ (f : File). f.content)) missing) ∙ e))
      | inr (f, found) ↦ (
        f,
        rw found refl,
        some-injective _ _ (sym (ap (Option.map (λ (f : File). f.content)) found) ∙ e),
      )
    ]

grown-inode : (a : InodeAttributes) (end : ℕ) → (grown a end).inode ≡ a.inode
unfolding grown
grown-inode a end = ground arith

grown-size : (a : InodeAttributes) (end : ℕ) → (grown a end).size ≡ max a.size end
unfolding grown
grown-size a end = ground arith

module _ (b : Blake3) (now : ℕ → SystemTime) where
  write_node-Written :
      (i : Inode) (offset : ℕ) (bytes content : Bytes) (a : InodeAttributes) (f : File) (s : Fs)
      → a.inode ≡ i
      → base_file a.hash s ≡ (ok f, s)
      → f.content ≡ content
      → (t : Fs) × (write_node b now (some a) offset bytes s ≡ (ok (length bytes % 2 ^ 32), t))
        × Written s t i (cursor_write content offset bytes) (max a.size (offset + length bytes))
  unfolding write_node on_mount Mount.time_now set_inode Mount.set_inode ◌>>=◌
  write_node-Written i offset bytes content a f s own base same =
      let modified = time_from_system_time (now s.mount.readings) in
      let changed = time_from_system_time (now (s.mount.readings + 1)) in
      let touched = update_last_metadata_changed changed (update_last_modified modified a) in
      let g = grown touched (length bytes + offset) in
      let id = b.hash (encode_string (cursor_write f.content offset bytes)) in
      let number : g.inode ≡ i = grown-inode touched (length bytes + offset) ∙ own in
      rw (base, file_get_hash_lem b (record { content = cursor_write f.content offset bytes }))
        (
          _,
          refl,
          record {
            contains = (
              set_hash id g,
              id,
              _,
              rw number (rw (nat_eq_refl i) refl),
              refl,
              rw (bytes_eq_refl id) refl,
              ap (λ c. cursor_write c offset bytes) same,
            );
            sized = (
              set_hash id g,
              rw number (rw (nat_eq_refl i) refl),
              omega (arith, grown-size touched (length bytes + offset)),
            );
            others = λ j ne. ground (arith, number);
          },
        )

  -- A write through a handle that may write, to a node that lies under its own number and holds some
  -- content, replies the number of bytes written (at 32 bits) and leaves the node with the content that
  -- has the bytes written over it at the offset, with the larger of its old size and the end of the
  -- written bytes as its size, and all other nodes as they were.
  pub write-Written :
      (i : Inode) (fh offset : ℕ) (bytes content : Bytes) (a : InodeAttributes) (s : Fs)
      → s.mount.nodes i ≡ some a
      → a.inode ≡ i
      → content_of s i ≡ some content
      → check_file_handle_write fh ≡ true
      → (t : Fs) × (write b now i fh (pos offset) bytes s ≡ (ok (length bytes % 2 ^ 32), t))
        × Written s t i (cursor_write content offset bytes) (max a.size (offset + length bytes))
  unfolding write content_of on_mount Mount.get_inode ◌>>=◌
  write-Written i fh offset bytes content a s node own present granted =
      rw (granted, node)
        (let (f, base, same) = base_file_lem i a content s node present in
          write_node-Written i offset bytes content a f s own base same)

  -- A write through a handle that may write, to a node that lies under its own number and holds
  -- `content`, replies the number of bytes written (at 32 bits), and a read from the start of the file through a handle that may read then replies
  -- the content with the bytes written over it at the offset, as far as the asked size goes, if the
  -- file stays below 2 ^ 32 bytes.
  pub read-write :
      (i : Inode) (fh offset : ℕ) (bytes content : Bytes) (a : InodeAttributes) (fh' size : ℕ)
      (s : Fs)
      → s.mount.nodes i ≡ some a
      → a.inode ≡ i
      → content_of s i ≡ some content
      → check_file_handle_write fh ≡ true
      → check_file_handle_read fh' ≡ true
      → max (length content) (offset + length bytes) < 2 ^ 32
      → (t : Fs) × (write b now i fh (pos offset) bytes s ≡ (ok (length bytes % 2 ^ 32), t))
        × (read i fh' (pos 0) size t ≡ (ok (take size (cursor_write content offset bytes)), t))
  read-write i fh offset bytes content a fh' size s node own present writable readable small =
      let (t, reply, done) =
        write-Written i fh offset bytes content a s node own present writable in
      (
        t,
        reply,
        read_start i fh' size _ t done.contains
            (omega (arith, length-cursor_write content offset bytes)) readable,
      )
