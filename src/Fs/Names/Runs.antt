-- ===== src/Fs/Names/Runs.antt =====
-- fs.rs: calls one after the other, seen through the tree of names.
use cultivate.Common.{
  is_utf8, ℕ, ◌+◌, ◌^◌, ◌<◌, ◌≡◌, ◌∙◌, refl, ap, sym, some, List, [], ◌∷◌, Bytes, bytes_key, length,
  nat_key, Outcome, ok, err, panic, >>=?-eq-some, arith,
}
use mathlib.Core.Path.{subst}
use cultivate.Errno.{Errno}
use cultivate.ContentHash.{Blake3}
use cultivate.Inode.Clock.{SystemTime}
use cultivate.Inode.{Inode, FileKind, FileAttr}
use cultivate.Fs.{Fs, F, Request}
use cultivate.Fs.Listing.{lookup, getattr}
use cultivate.Fs.Create.{symlink, mkdir, mknod, masked, file_type_known}
use cultivate.Fs.Node.{as_file_kind}
use cultivate.Fs.Valid.{IsValid}
use cultivate.Fs.Valid.Nodes.{Room}
use cultivate.Fs.Valid.Making.{Survives, mkdir-Survives}
use cultivate.Fs.Valid.Special.{mknod-Survives, symlink-Survives}
use cultivate.Fs.Valid.Others.{lookup-Survives, getattr-Survives}
use cultivate.Fs.Names.{
  Namespace, N, Shown, view, observe, shown_reply, entry, look_up, get_kind, make_directory,
  make_node, make_link,
}
use cultivate.Fs.Names.Growing.{
  Grows, Numbered, look_up-Grows, get_kind-Grows, make_directory-Grows, make_node-Grows,
  make_link-Grows,
}
use cultivate.Fs.Names.Making.{mkdir-make_directory}
use cultivate.Fs.Names.Nodes.{mknod-make_node}
use cultivate.Fs.Names.Linking.{symlink-make_link}
use cultivate.Fs.Names.Looking.{lookup-look_up, getattr-get_kind}

-- Calls that look at the tree of names or make it grow.
pub data NameCall : Type 0 where
  look : Inode → Bytes → NameCall
  stat : Inode → NameCall
  make_dir : Request → Inode → Bytes → (mode : ℕ) → NameCall
  make_file : Request → Inode → Bytes → (mode : ℕ) → NameCall
  make_symlink : Request → Inode → Bytes → (target : Bytes) → NameCall

-- The replies of calls one after the other, and the state after the last one. A panic ends the file
-- system, and the calls after it have no reply.
module _ {S : Type 0} where
  abbrev pub carry_on :
      Outcome Errno Shown → S → List (Outcome Errno Shown) × S → List (Outcome Errno Shown) × S
  carry_on (ok a) t rest = (ok a ∷ rest.0, rest.1)
  carry_on (err e) t rest = (err e ∷ rest.0, rest.1)
  carry_on panic t rest = (panic ∷ [], t)

module _ {S A : Type 0} (call : A → S → Outcome Errno Shown × S) where
  abbrev pub replies : List A → S → List (Outcome Errno Shown) × S
  replies [] s = ([], s)
  replies (c ∷ cs) s = let (r, t) = call c s in let rest = replies cs t in carry_on r t rest

module _ (b : Blake3) (now : ℕ → SystemTime) where
  abbrev serve : NameCall → F FileAttr
  serve (look parent name) = lookup parent name
  serve (stat i) = getattr i
  serve (make_dir req parent name mode) = mkdir now req parent name mode
  serve (make_file req parent name mode) = mknod now req parent name mode
  serve (make_symlink req parent name target) = symlink b now req parent name target

  -- What a handler's reply shows, and the state.
  abbrev pub served : NameCall → Fs → Outcome Errno Shown × Fs
  served c s = let (r, t) = serve c s in (shown_reply r, t)

  abbrev pub described : NameCall → N
  described (look parent name) = look_up parent name
  described (stat i) = get_kind i
  described (make_dir req parent name mode) = make_directory parent name
  described (make_file req parent name mode) =
      make_node (file_type_known mode) (as_file_kind (masked req mode)) parent name
  described (make_symlink req parent name target) = make_link (is_utf8 target) parent name

  serve-described :
      (c : NameCall) (s : Fs) → IsValid s → Room s → observe (serve c s) ≡ described c (view s)
  serve-described (look parent name) s v room = lookup-look_up parent name s v
  serve-described (stat i) s v room = getattr-get_kind i s v
  serve-described (make_dir req parent name mode) s v room =
      mkdir-make_directory now req parent name mode s v
  serve-described (make_file req parent name mode) s v room =
      mknod-make_node now req parent name mode s v
  serve-described (make_symlink req parent name target) s v room =
      symlink-make_link b now req parent name target s v room

  serve-Survives : (c : NameCall) (s : Fs) → IsValid s → Room s → Survives (serve c s)
  serve-Survives (look parent name) s v room = lookup-Survives parent name s v
  serve-Survives (stat i) s v room = getattr-Survives i s v
  serve-Survives (make_dir req parent name mode) s v room =
      mkdir-Survives now req parent name mode s v room
  serve-Survives (make_file req parent name mode) s v room =
      mknod-Survives now req parent name mode s v room
  serve-Survives (make_symlink req parent name target) s v room =
      symlink-Survives b now req parent name target s v room

  described-Grows : (c : NameCall) (n : Namespace) → Grows n (described c n).1
  described-Grows (look parent name) n = look_up-Grows parent name n
  described-Grows (stat i) n = get_kind-Grows i [] n
  described-Grows (make_dir req parent name mode) n = make_directory-Grows parent name n
  described-Grows (make_file req parent name mode) n = make_node-Grows parent name n _ _
  described-Grows (make_symlink req parent name target) n = make_link-Grows parent name n _

  -- One call: what it shows, and what the calls after it need.
  serve-Grows : (c : NameCall) (s : Fs) → IsValid s → Room s → Grows (view s) (view (serve c s).1)
  serve-Grows c s v room =
      subst (Grows (view s)) (sym (ap (λ p. p.1) (serve-described c s v room)))
        (described-Grows c (view s))

  -- There are numbers for so many calls.
  abbrev pub RoomFor : List NameCall → Fs → Type 0
  RoomFor cs s = s.mount.next_inode + length cs < 2 ^ 64

  room_left :
      (c : NameCall) (cs : List NameCall) (s t : Fs)
      → RoomFor (c ∷ cs) s
      → Grows (view s) (view t)
      → RoomFor cs t
  unfolding view
  room_left c cs s t room g = omega (arith, g.next)

  Room-now : (c : NameCall) (cs : List NameCall) (s : Fs) → RoomFor (c ∷ cs) s → Room s
  Room-now c cs s room = omega arith

  -- What a run shows.
  abbrev pub shown_run : List NameCall → Fs → List (Outcome Errno Shown) × Namespace
  shown_run cs s = let (rs, t) = replies served cs s in (rs, view t)

  carry_on_shown :
      (r : Outcome Errno Shown) (t : Fs) (rest : List (Outcome Errno Shown) × Fs)
      → (let (rs, u) = carry_on r t rest in (rs, view u))
        ≡ carry_on r (view t) (rest.0, view rest.1)
  carry_on_shown (ok a) t rest = refl
  carry_on_shown (err e) t rest = refl
  carry_on_shown panic t rest = refl

  follow :
      (cs : List NameCall) (p : Outcome Errno FileAttr × Fs)
      → Survives p
      → (IsValid p.1 → shown_run cs p.1 ≡ replies described cs (view p.1))
      → carry_on (shown_reply p.0) (view p.1) (shown_run cs p.1)
        ≡ carry_on (shown_reply p.0) (view p.1) (replies described cs (view p.1))
  follow cs (ok a, t) h ih = ap (carry_on (ok (a.ino, a.kind)) (view t)) (ih h.holds.0)
  follow cs (err e, t) h ih = ap (carry_on (err e) (view t)) (ih h.holds)
  follow cs (panic, t) h ih = refl

  -- The handlers refine the description of the tree of names: from a valid state with an inode number
  -- left for each call, any lookups, getattrs, mkdirs, mknods and symlinks one after the other give the
  -- replies (inode and kind, error code, or panic) that the functions on trees of names give from the
  -- tree that the state shows, and end in a state that shows the tree that those end in.
  pub replies-described :
      (cs : List NameCall) (s : Fs)
      → IsValid s
      → RoomFor cs s
      → shown_run cs s ≡ replies described cs (view s)
  replies-described [] s v room = refl
  replies-described (c ∷ cs) s v room =
      let now = Room-now c cs s room in
      let left = room_left c cs s (serve c s).1 room (serve-Grows c s v now) in
      carry_on_shown (shown_reply (serve c s).0) (serve c s).1 (replies served cs (serve c s).1)
      ∙ follow cs (serve c s) (serve-Survives c s v now)
          (λ w. replies-described cs (serve c s).1 w left)
      ∙ ap (λ q. let rest = replies described cs q.1 in carry_on q.0 q.1 rest)
          (serve-described c s v now)

  valid-Numbered : (s : Fs) → IsValid s → Numbered (view s)
  unfolding view
  valid-Numbered s v d c h =
      let (es, listed, _) = >>=?-eq-some (s.mount.directories d) _ h in
      let (a, here, _) = v.directory d es listed in v.fresh d a here

  keep_on :
      (cs : List NameCall) (p : Outcome Errno FileAttr × Fs) (d : Inode) (name : Bytes)
      (e : Inode × FileKind)
      → Survives p
      → (IsValid p.1 → entry (view (replies served cs p.1).1) d name ≡ some e)
      → entry (view p.1) d name ≡ some e
      → entry (view (carry_on (shown_reply p.0) p.1 (replies served cs p.1)).1) d name ≡ some e
  keep_on cs (ok a, t) d name e h ih there = ih h.holds.0
  keep_on cs (err x, t) d name e h ih there = ih h.holds
  keep_on cs (panic, t) d name e h ih there = there

  -- A name keeps its meaning: what a name in a directory stands for in a valid state, it stands for after
  -- any lookups, getattrs, mkdirs, mknods and symlinks, whatever their replies, with an inode number
  -- left for each.
  pub replies_keep :
      (cs : List NameCall) (s : Fs) (d : Inode) (name : Bytes) (e : Inode × FileKind)
      → IsValid s
      → RoomFor cs s
      → entry (view s) d name ≡ some e
      → entry (view (replies served cs s).1) d name ≡ some e
  replies_keep [] s d name e v room there = there
  replies_keep (c ∷ cs) s d name e v room there =
      let now = Room-now c cs s room in
      let g = serve-Grows c s v now in
      let kept = g.entries (valid-Numbered s v) d name e there in
      keep_on cs (serve c s) d name e (serve-Survives c s v now)
        (λ w. replies_keep cs (serve c s).1 d name e w (room_left c cs s (serve c s).1 room g) kept)
        kept
