-- ===== src/Fs/Valid.antt =====
-- When the state of a file system is well formed, and a rule for handlers that keep it so.
pub mod Primitive
pub mod Calls
pub mod Nodes
pub mod Making
pub mod Special
pub mod Others
pub mod Writing
pub mod Start
pub mod Serving
pub mod Moving
use cultivate.Common.{
  ℕ, ◌+◌, ◌^◌, ◌<◌, ◌≡◌, ◌∙◌, refl, Option, none, some, Bytes, Outcome, ok, err, panic, Run, ◌>>=◌,
  continue, attempt_result, sym,
}
use mathlib.Core.Path.{subst, subst₂}
use cultivate.BTreeMap
use cultivate.Errno.{Errno}
use cultivate.Object.{ObjectId, File, Symlink}
use cultivate.Inode.{Inode, FileKind, InodeAttributes}
use cultivate.Mount.{DirectoryDescriptor}
use cultivate.Fs.{Fs, F}

-- There is an inode `i` of this kind.
abbrev pub Has : Fs → Inode → FileKind → Type 0
Has s i kind = (a : InodeAttributes) × (s.mount.nodes i ≡ some a) × (a.kind ≡ kind)

-- Attributes that the state can hold: they are of an inode of their kind, all permissions are set, and
-- the hash of a file or a link leads to an object.
pub record Known (s : Fs) (a : InodeAttributes) : Type 0 where
  pub has : Has s a.inode a.kind
  pub mode : a.mode ≡ 0o777
  pub backed :
      (h : ObjectId)
      → a.kind ≡ FileKind.file
      → a.hash ≡ some h
      → (f : File) × (s.store.files h ≡ some f)
  pub linked :
      (h : ObjectId)
      → a.kind ≡ FileKind.symlink
      → a.hash ≡ some h
      → (l : Symlink) × (s.store.symlinks h ≡ some l)

-- Every entry names an inode of the kind that it says.
abbrev pub EntriesKnown : Fs → DirectoryDescriptor → Type 0
EntriesKnown s es =
    (name : Bytes) (i : Inode) (kind : FileKind)
    → BTreeMap.get name es ≡ some (i, kind)
    → Has s i kind

pub record IsValid (s : Fs) : Type 0 where
  -- an inode lies under its own number, below the counter
  pub keyed : (i : Inode) (a : InodeAttributes) → s.mount.nodes i ≡ some a → a.inode ≡ i
  pub fresh : (i : Inode) (a : InodeAttributes) → s.mount.nodes i ≡ some a → i < s.mount.next_inode
  pub known : (i : Inode) (a : InodeAttributes) → s.mount.nodes i ≡ some a → Known s a
  -- only directories have entries
  pub directory :
      (i : Inode) (es : DirectoryDescriptor)
      → s.mount.directories i ≡ some es
      → Has s i FileKind.directory
  pub entries :
      (i : Inode) (es : DirectoryDescriptor) → s.mount.directories i ≡ some es → EntriesKnown s es

-- What a later state keeps of an earlier one.
pub record Since (s t : Fs) : Type 0 where
  pub kinds : (i : Inode) (kind : FileKind) → Has s i kind → Has t i kind
  pub files :
      (h : ObjectId) (f : File) → s.store.files h ≡ some f → (g : File) × (t.store.files h ≡ some g)
  pub symlinks :
      (h : ObjectId) (l : Symlink)
      → s.store.symlinks h ≡ some l
      → (k : Symlink) × (t.store.symlinks h ≡ some k)

pub Since-refl : (s : Fs) → Since s s
Since-refl s = record { kinds = λ i kind h. h; files = λ h f e. (f, e); symlinks = λ h l e. (l, e) }

pub Since-trans : {s t u : Fs} → Since s t → Since t u → Since s u
Since-trans p q = record {
  kinds = λ i kind h. q.kinds i kind (p.kinds i kind h);
  files = λ h f e. let (g, found) = p.files h f e in q.files h g found;
  symlinks = λ h l e. let (k, found) = p.symlinks h l e in q.symlinks h k found;
}

-- The same, where no inode was allocated.
pub record Still (s t : Fs) : Type 0 where
  pub since : Since s t
  pub counter : t.mount.next_inode ≡ s.mount.next_inode

pub Still-refl : (s : Fs) → Still s s
Still-refl s = record { since = Since-refl s; counter = refl }

pub Still-trans : {s t u : Fs} → Still s t → Still t u → Still s u
Still-trans p q = record { since = Since-trans p.since q.since; counter = q.counter ∙ p.counter }

pub Since-Known : {s t : Fs} {a : InodeAttributes} → Since s t → Known s a → Known t a
Since-Known {a = a} p k = record {
  has = p.kinds a.inode a.kind k.has;
  mode = k.mode;
  backed = λ h kind hash. let (f, found) = k.backed h kind hash in p.files h f found;
  linked = λ h kind hash. let (l, found) = k.linked h kind hash in p.symlinks h l found;
}

-- Known attributes stay so when only the times, the owner, the size or a counter change.
pub Known-alike :
    {s : Fs} (a c : InodeAttributes)
    → c.inode ≡ a.inode
    → c.kind ≡ a.kind
    → c.mode ≡ a.mode
    → c.hash ≡ a.hash
    → Known s a
    → Known s c
Known-alike {s} a c inode kind mode hash k = record {
  has = subst₂ (λ i l. Has s i l) (sym inode) (sym kind) k.has;
  mode = mode ∙ k.mode;
  backed = λ h e f. k.backed h (sym kind ∙ e) (sym hash ∙ f);
  linked = λ h e f. k.linked h (sym kind ∙ e) (sym hash ∙ f);
}

pub Since-EntriesKnown :
    {s t : Fs} (es : DirectoryDescriptor) → Since s t → EntriesKnown s es → EntriesKnown t es
Since-EntriesKnown es p k = λ name i kind e. p.kinds i kind (k name i kind e)

abbrev Holds : {A : Type 0} → (A → Fs → Type 0) → Outcome Errno A × Fs → Type 0
Holds Q (ok a, t) = IsValid t × Q a t
Holds Q (err e, t) = IsValid t
Holds Q (panic, t) = Unit

-- A reply, or an error, of a valid state, with a property of the value; nothing is asked after a panic.
pub record Post {A : Type 0} (Q : A → Fs → Type 0) (p : Outcome Errno A × Fs) : Type 0 where
  pub holds : Holds Q p

module _ {A B : Type 0} (f : A → F B) {Q : A → Fs → Type 0} {R : B → Fs → Type 0} where
  bind_at :
      (p : Outcome Errno A × Fs)
      → Post Q p
      → ((a : A) (t : Fs) → IsValid t → Q a t → Post R (f a t))
      → Post R (continue p.0 f p.1)
  bind_at (ok a, t) h k = k a t h.holds.0 h.holds.1
  bind_at (err e, t) h k = record { holds = h.holds }
  bind_at (panic, t) h k = record { holds = tt }

  -- The rule for a chain of calls.
  pub bind-Post :
      (m : F A) (s : Fs)
      → Post Q (m s)
      → ((a : A) (t : Fs) → IsValid t → Q a t → Post R (f a t))
      → Post R ((m >>= f) s)
  unfolding ◌>>=◌
  bind-Post m s h k = bind_at (m s) h k

-- A weaker property of the value.
pub Post-map :
    {A : Type 0} {Q R : A → Fs → Type 0} {p : Outcome Errno A × Fs}
    → ((a : A) (t : Fs) → Q a t → R a t)
    → Post Q p
    → Post R p
Post-map {p = (ok a, t)} k h = record { holds = (h.holds.0, k a t h.holds.1) }
Post-map {p = (err e, t)} k h = record { holds = h.holds }
Post-map {p = (panic, t)} k h = record { holds = tt }

abbrev pub Maybe : {A : Type 0} → (A → Fs → Type 0) → Option A → Fs → Type 0
Maybe Q none t = Unit
Maybe Q (some a) t = Q a t

-- A call that changes nothing, whose error is looked at.
pub attempt-Post :
    {A : Type 0} {Q : A → Fs → Type 0} {s : Fs} (p : Outcome Errno A × Fs)
    → p.1 ≡ s
    → Post Q p
    → Post (λ o t. Still s t × Maybe Q o t) (attempt_result p.0 p.1)
attempt-Post {s = s} (ok a, t) e h = record {
  holds = (h.holds.0, (subst (λ u. Still s u) (sym e) (Still-refl s), h.holds.1));
}
attempt-Post {s = s} (err x, t) e h = record {
  holds = (h.holds, (subst (λ u. Still s u) (sym e) (Still-refl s), tt));
}
attempt-Post (panic, t) e h = record { holds = tt }
