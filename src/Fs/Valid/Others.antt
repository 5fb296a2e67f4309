-- ===== src/Fs/Valid/Others.antt =====
-- fs.rs: validity along the other handlers.
use cultivate.Common.{
  ℕ, ◌+◌, ◌%◌, ◌^◌, ◌≡◌, refl, sym, Bool, Option, none, some, Bytes, arith, Bool-cases, inl, inr,
  bytes_key, ok, err, panic, Outcome, ◌>>=◌, ℤ, ltb,
}
use mathlib.Core.Path.{subst}
use cultivate.Errno.{Errno}
use cultivate.Inode.{Inode, InodeAttributes, inc_file_handle, dec_file_handle}
use cultivate.Fs.{Fs, Request, get_inode}
use cultivate.Fs.Handle.{allocate_next_file_handle}
use cultivate.Fs.Listing.{lookup, getattr, setattr, ReplyDirectory, readdir}
use cultivate.Fs.Open.{Wanted, access_mode, open_node, open_file, opendir, release_found, release}
use cultivate.Fs.Content.{read, readlink, write}
use cultivate.Fs.Valid.{
  Known, Known-alike, IsValid, Since, Since-Known, Still, Still-refl, Post, bind-Post, Post-map,
  Maybe, attempt-Post,
}
use cultivate.Fs.Valid.Calls.{Found, get_inode-Post, require_access-Post, set_inode-Post}
use cultivate.Fs.Valid.Making.{Survives}

pub lookup_same : (parent : Inode) (name : Bytes) (s : Fs) → (lookup parent name s).1 ≡ s
unfolding lookup ◌>>=◌
lookup_same parent name s = ground arith

pub getattr_same : (i : Inode) (s : Fs) → (getattr i s).1 ≡ s
unfolding getattr ◌>>=◌
getattr_same i s = ground arith

pub setattr_same : (i : Inode) (s : Fs) → (setattr i s).1 ≡ s
unfolding setattr ◌>>=◌
setattr_same i s = ground arith

pub readdir_same :
    (d : ReplyDirectory) (i : Inode) (offset : ℤ) (r : d.Buffer) (s : Fs)
    → (readdir d i offset r s).1 ≡ s
unfolding readdir ◌>>=◌
readdir_same d i offset r s = ground arith

pub readlink_same : (i : Inode) (s : Fs) → (readlink i s).1 ≡ s
unfolding readlink ◌>>=◌
readlink_same i s = ground arith

pub read_same :
    (i : Inode) (fh : ℕ) (offset : ℤ) (size : ℕ) (s : Fs) → (read i fh offset size s).1 ≡ s
unfolding read ◌>>=◌
read_same i fh offset size s = ground arith

pub same-Post :
    {A : Type 0} (p : Outcome Errno A × Fs) (s : Fs)
    → p.1 ≡ s
    → IsValid s
    → Post (λ _ t. Still s t) p
same-Post (ok a, t) s e v = record {
  holds = (subst IsValid (sym e) v, subst (λ u. Still s u) (sym e) (Still-refl s));
}
same-Post (err x, t) s e v = record { holds = subst IsValid (sym e) v }
same-Post (panic, t) s e v = record { holds = tt }

same-Survives : {A : Type 0} (p : Outcome Errno A × Fs) (s : Fs) → p.1 ≡ s → IsValid s → Survives p
same-Survives p s e v = Post-map (λ _ _ _. tt) (same-Post p s e v)

pub lookup-Survives : (d : Inode) (name : Bytes) (s : Fs) → IsValid s → Survives (lookup d name s)
lookup-Survives d name s = same-Survives (lookup d name s) s (lookup_same d name s)

pub getattr-Survives : (i : Inode) (s : Fs) → IsValid s → Survives (getattr i s)
getattr-Survives i s = same-Survives (getattr i s) s (getattr_same i s)

pub setattr-Survives : (i : Inode) (s : Fs) → IsValid s → Survives (setattr i s)
setattr-Survives i s = same-Survives (setattr i s) s (setattr_same i s)

pub readlink-Survives : (i : Inode) (s : Fs) → IsValid s → Survives (readlink i s)
readlink-Survives i s = same-Survives (readlink i s) s (readlink_same i s)

pub read-Survives :
    (i : Inode) (fh : ℕ) (offset : ℤ) (size : ℕ) (s : Fs)
    → IsValid s
    → Survives (read i fh offset size s)
read-Survives i fh offset size s =
    same-Survives (read i fh offset size s) s (read_same i fh offset size s)

pub readdir-Survives :
    (d : ReplyDirectory) (i : Inode) (offset : ℤ) (r : d.Buffer) (s : Fs)
    → IsValid s
    → Survives (readdir d i offset r s)
readdir-Survives d i offset r s =
    same-Survives (readdir d i offset r s) s (readdir_same d i offset r s)

access_mode_same : (exec flags : ℕ) (s : Fs) → (access_mode exec flags s).1 ≡ s
unfolding access_mode
access_mode_same exec flags s = ground arith

handle-Post :
    (read write : Bool) (s : Fs)
    → IsValid s
    → Post (λ _ t. Still s t) (allocate_next_file_handle read write s)
unfolding allocate_next_file_handle ◌>>=◌
handle-Post read write s v =
    let later : Fs = record s { next_file_handle = (s.next_file_handle + 1) % 2 ^ 64 } in
    let since : Since s later = record {
      kinds = λ i kind h. h;
      files = λ h f e. (f, e);
      symlinks = λ h l e. (l, e);
    } in
    let valid : IsValid later = record {
      keyed = v.keyed;
      fresh = v.fresh;
      known = λ i a h. Since-Known since (v.known i a h);
      directory = v.directory;
      entries = v.entries;
    } in
    elim (Bool-cases (ltb s.next_file_handle (2 ^ 62))) [
      | inl room ↦ rw room (record { holds = (valid, record { since = since; counter = refl }) })
      | inr full ↦ rw full (record { holds = tt })
    ]

open_node-Survives :
    (req : Request) (i : Inode) (w : Wanted) (s : Fs) → IsValid s → Survives (open_node req i w s)
unfolding open_node inc_file_handle
open_node-Survives req i w s v = bind-Post _ _ _ (get_inode-Post i s v) λ a t vt (st, _).
    bind-Post _ _ _ (require_access-Post req a w.access_mask t vt) λ _ u vu tu.
      bind-Post _ _ _
        (set_inode-Post _ u vu (Known-alike a _ refl refl refl refl (Since-Known tu.since st.1)))
        λ _ x vx _.
          bind-Post _ _ _ (handle-Post w.read w.write x vx) λ fh y vy _. record { holds = (vy, tt) }

pub open_file-Survives :
    (req : Request) (i : Inode) (flags : ℕ) (s : Fs)
    → IsValid s
    → Survives (open_file req i flags s)
unfolding open_file
open_file-Survives req i flags s v =
    bind-Post _ _ _ (same-Post (access_mode _ flags s) s (access_mode_same _ flags s) v)
      λ w t vt _. open_node-Survives req i w t vt

pub opendir-Survives :
    (req : Request) (i : Inode) (flags : ℕ) (s : Fs) → IsValid s → Survives (opendir req i flags s)
unfolding opendir
opendir-Survives req i flags s v =
    bind-Post _ _ _ (same-Post (access_mode _ flags s) s (access_mode_same _ flags s) v)
      λ w t vt _. open_node-Survives req i w t vt

dec_file_handle-Known : (a : InodeAttributes) (s : Fs) → Known s a → Known s (dec_file_handle a)
unfolding dec_file_handle
dec_file_handle-Known a s k =
    Known-alike a _ (ground arith) (ground arith) (ground arith) (ground arith) k

release_found-Survives :
    (s : Fs) (o : Option InodeAttributes) (t : Fs)
    → IsValid t
    → Maybe (Found s) o t
    → Survives (release_found o t)
release_found-Survives s none t v h = record { holds = (v, tt) }
release_found-Survives s (some a) t v h =
    Post-map (λ _ _ _. tt) (set_inode-Post _ t v (dec_file_handle-Known a t h.1))

get_inode_same : (i : Inode) (s : Fs) → (get_inode i s).1 ≡ s
unfolding get_inode ◌>>=◌
get_inode_same i s = ground arith

pub release-Survives : (i : Inode) (s : Fs) → IsValid s → Survives (release i s)
unfolding release
release-Survives i s v =
    bind-Post _ _ _
      (attempt-Post (get_inode i s) (get_inode_same i s)
        (Post-map {R = Found s} (λ a t h. h.0) (get_inode-Post i s v)))
      λ o t vt h. release_found-Survives s o t vt h.1
