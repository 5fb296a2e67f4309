-- ===== src/Fs/Names/Calls.antt =====
-- fs.rs: what the calls that the creating handlers are made of do to the tree of names.
use cultivate.Common.{
  ◌≡◌, refl, ap, true, Option, none, some, Bytes, bytes_key, nat_key, Outcome, ok, err, panic,
  continue, ◌>>=◌, arith, Option-cases, inl, inr,
}
use cultivate.BTreeMap
use cultivate.BTreeMap.{get-insert}
use cultivate.Errno.{Errno, eexist, enoent}
use cultivate.Inode.{Inode, FileKind, InodeAttributes}
use cultivate.Mount
use cultivate.Mount.{DirectoryDescriptor}
use cultivate.Fs.{Fs, F, Request, on_mount, get_inode, get_directory_content, lookup_name}
use cultivate.Fs.Access.{require_access, check_access, w_ok}
use cultivate.Fs.Node.{require_absent}
use cultivate.Fs.Valid.{IsValid}
use cultivate.Fs.Names.{view, entry}

-- A call that gives a value, or ends, inside a block.
module _ {A B : Type 0} (f : A → F B) where
  pub then_ok : (m : F A) (s : Fs) {t : Fs} {a : A} → m s ≡ (ok a, t) → (m >>= f) s ≡ f a t
  unfolding ◌>>=◌
  then_ok m s e = ap (λ p. continue p.0 f p.1) e

  pub then_err :
      (m : F A) (s : Fs) {t : Fs} {x : Errno} → m s ≡ (err x, t) → (m >>= f) s ≡ (err x, t)
  unfolding ◌>>=◌
  then_err m s e = ap (λ p. continue p.0 f p.1) e

  pub then_panic : (m : F A) (s : Fs) {t : Fs} → m s ≡ (panic, t) → (m >>= f) s ≡ (panic, t)
  unfolding ◌>>=◌
  then_panic m s e = ap (λ p. continue p.0 f p.1) e

-- Looking up an inode.
pub get_inode-some :
    (i : Inode) (a : InodeAttributes) (s : Fs)
    → s.mount.nodes i ≡ some a
    → get_inode i s ≡ (ok a, s)
unfolding get_inode on_mount Mount.get_inode ◌>>=◌
get_inode-some i a s here = rw here refl

pub get_inode-none : (i : Inode) (s : Fs) → s.mount.nodes i ≡ none → get_inode i s ≡ (err enoent, s)
unfolding get_inode on_mount Mount.get_inode ◌>>=◌
get_inode-none i s gone = rw gone refl

module _ (d : Inode) (name : Bytes) (s : Fs) where
  -- What a look-up of a name meets: no directory, a directory without the name, or an inode.
  pub data Meets : Option InodeAttributes → Type 0 where
    no_directory : s.mount.directories d ≡ none → Meets none
    no_name :
        (es : DirectoryDescriptor)
        → s.mount.directories d ≡ some es
        → BTreeMap.get name es ≡ none
        → Meets none
    inode :
        (es : DirectoryDescriptor) (e : Inode × FileKind) (a : InodeAttributes)
        → s.mount.directories d ≡ some es
        → BTreeMap.get name es ≡ some e
        → s.mount.nodes e.0 ≡ some a
        → a.inode ≡ e.0
        → a.kind ≡ e.1
        → Meets (some a)

  pub Meets-IsValid : IsValid s → (o : Option InodeAttributes) × Meets o
  Meets-IsValid v = elim (Option-cases (s.mount.directories d)) [
    | inl bare ↦ (none, no_directory bare)
    | inr (es, listed) ↦ elim (Option-cases (BTreeMap.get name es)) [
      | inl absent ↦ (none, no_name es listed absent)
      | inr (e, there) ↦
          let (a, here, kind) = v.entries d es listed name e.0 e.1 there in
          (some a, inode es e a listed there here (v.keyed e.0 a here) kind)
    ]
  ]

  abbrev pub replied : Option InodeAttributes → Outcome Errno InodeAttributes
  replied none = err enoent
  replied (some a) = ok a

  pub lookup_name-Meets :
      {o : Option InodeAttributes} → Meets o → lookup_name d name s ≡ (replied o, s)
  unfolding lookup_name get_directory_content get_inode on_mount Mount.get_directory_content
      Mount.get_inode ◌>>=◌
  lookup_name-Meets (no_directory bare) = rw bare refl
  lookup_name-Meets (no_name es listed absent) = rw (listed, absent) refl
  lookup_name-Meets (inode es e a listed there here number kind) = rw (listed, there, here) refl

  abbrev pub refused : Option InodeAttributes → Outcome Errno (Unit {0})
  refused none = ok tt
  refused (some a) = err eexist

  pub require_absent-Meets :
      (o : Option InodeAttributes) → Meets o → require_absent d name s ≡ (refused o, s)
  unfolding require_absent ◌>>=◌
  require_absent-Meets none m = rw (lookup_name-Meets m) refl
  require_absent-Meets (some a) m = rw (lookup_name-Meets m) refl

  abbrev pub shown_entry : Option InodeAttributes → Option (Inode × FileKind)
  shown_entry none = none
  shown_entry (some a) = some (a.inode, a.kind)

  pub entry-Meets : {o : Option InodeAttributes} → Meets o → entry (view s) d name ≡ shown_entry o
  unfolding view
  entry-Meets (no_directory bare) = rw bare refl
  entry-Meets (no_name es listed absent) = rw (listed, absent) refl
  entry-Meets (inode es e a listed there here number kind) = rw (listed, there, number, kind) refl

-- Everyone may write to a directory of a valid state.
open_to_all :
    (a : InodeAttributes) (req : Request)
    → a.mode ≡ 0o777
    → check_access a.uid a.gid a.mode req.uid req.gid w_ok ≡ true
unfolding check_access
open_to_all a req mode = rw mode (ground arith)

pub require_access_open :
    (req : Request) (a : InodeAttributes) (s : Fs)
    → a.mode ≡ 0o777
    → require_access req a w_ok s ≡ (ok tt, s)
unfolding require_access
require_access_open req a s mode = rw (open_to_all a req mode) refl
