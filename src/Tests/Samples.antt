-- ===== src/Tests/Samples.antt =====
-- Stand-ins for the code outside the repository, and a small file system.
use cultivate.Common.{
  ℕ, ◌≡◌, refl, Bool, true, false, List, [], bytes_key, ◌∷◌, ◌++◌, Bytes, length, take, replicate,
  arith, length-take, length-append, length-replicate, ltb,
}
use mathlib.Core.List.{append_assoc, append-nil}
use cultivate.HashMap
use cultivate.ContentHash.{Blake3}
use cultivate.Object.{empty_tree}
use cultivate.Object.Encoding.{encode_tree}
use cultivate.Inode.Clock.{SystemTime, after}
use cultivate.Store.{Store}
use cultivate.Fs.{Request}
use cultivate.Fs.Listing.{DirEntry, ReplyDirectory}

-- A hash function: the first 32 bytes, with zeros behind.
abbrev pub first_bytes : Bytes → Bytes
first_bytes a = take 32 (a ++ replicate 32 0)

abbrev length-first_bytes : (a : Bytes) → length (first_bytes a) ≡ 32
length-first_bytes a = omega (
  arith,
  length-take 32 (a ++ replicate 32 0),
  length-append a (replicate 32 0),
  length-replicate {A = ℕ} 32 0,
)

abbrev pub sample_hash : Blake3
sample_hash = record {
  Hasher = Bytes;
  new = [];
  update = λ h a. h ++ a;
  finalize = first_bytes;
  hash = first_bytes;
  update-nil = λ h. append-nil h;
  update-update = λ h a b. append_assoc h a b;
  finalize-update = λ a. refl;
  length-hash = length-first_bytes;
}

-- A clock that counts seconds.
abbrev pub clock : ℕ → SystemTime
clock n = after n 0

-- A reply that holds two entries.
abbrev add_entry : List DirEntry → DirEntry → Bool → List DirEntry × Bool
add_entry r e true = (r ++ e ∷ [], false)
add_entry r e false = (r, true)

abbrev add_entry-fits :
    (r : List DirEntry) (e : DirEntry) (b : Bool)
    → (add_entry r e b).1 ≡ false
    → (add_entry r e b).0 ≡ r ++ e ∷ []
add_entry-fits r e true h = refl
add_entry-fits r e false h = cc

abbrev add_entry-full :
    (r : List DirEntry) (e : DirEntry) (b : Bool)
    → (add_entry r e b).1 ≡ true
    → (add_entry r e b).0 ≡ r
add_entry-full r e true h = cc
add_entry-full r e false h = refl

abbrev pub two_entries : ReplyDirectory
two_entries = record {
  Buffer = List DirEntry;
  add = λ r e. add_entry r e (ltb (length r) 2);
  added = λ r. r;
  add-fits = λ r e. add_entry-fits r e (ltb (length r) 2);
  add-full = λ r e. add_entry-full r e (ltb (length r) 2);
}

abbrev pub user : Request
user = record { uid = 1000; gid = 100 }

-- A store with the empty tree.
abbrev pub sample_store : Store
sample_store =
    let id = sample_hash.hash (encode_tree empty_tree) in
    record {
      commits = HashMap.empty;
      files = HashMap.empty;
      symlinks = HashMap.empty;
      empty_tree_id = id;
      trees = HashMap.insert id empty_tree HashMap.empty;
    }
