-- ===== src/Fs/Valid/Calls.antt =====
-- fs.rs: validity along the calls that the handlers are made of.
use cultivate.Common.{
  ℕ, ◌≡◌, refl, Option, none, some, Bytes, arith, Bool-cases, inl, inr, nat_key, ◌>>=◌, attempt,
  unwrap,
}
use cultivate.BTreeMap
use cultivate.BTreeMap.{get-insert, get-remove}
use cultivate.Inode.{Inode, FileKind, InodeAttributes}
use cultivate.Mount.{DirectoryDescriptor}
use cultivate.Fs.{
  Fs, Request, get_inode, get_directory_content, set_inode, set_directory_content, lookup_name,
  or_enoent,
}
use cultivate.Fs.Access.{require_access, check_access}
use cultivate.Fs.Node.{unwrap_directory, require_absent, refuse_present}
use cultivate.Fs.Valid.{
  Has, Known, EntriesKnown, IsValid, Still, Still-refl, Still-trans, Post, bind-Post, Post-map,
  Maybe, attempt-Post,
}
use cultivate.Fs.Valid.Primitive.{
  set_inode-Still, set_inode-IsValid, set_directory_content-Still, set_directory_content-IsValid,
}

or_enoent-Post :
    {A : Type 0} {Q : A → Fs → Type 0} (o : Option A) (s : Fs)
    → IsValid s
    → ((a : A) → o ≡ some a → Q a s)
    → Post Q (or_enoent o s)
or_enoent-Post none s v k = record { holds = v }
or_enoent-Post (some a) s v k = record { holds = (v, k a refl) }

pub unwrap-Post :
    {A : Type 0} {Q : A → Fs → Type 0} (o : Option A) (s : Fs)
    → IsValid s
    → ((a : A) → o ≡ some a → Q a s)
    → Post Q (unwrap o s)
unwrap-Post none s v k = record { holds = tt }
unwrap-Post (some a) s v k = record { holds = (v, k a refl) }

-- What a look-up of an inode gives.
abbrev pub Found : Fs → InodeAttributes → Fs → Type 0
Found s a t = Still s t × Known t a

-- What a look-up of a directory gives.
abbrev pub Listed : Inode → Fs → DirectoryDescriptor → Fs → Type 0
Listed d s es t = Still s t × Has t d FileKind.directory × EntriesKnown t es

pub get_inode-Post :
    (i : Inode) (s : Fs) → IsValid s → Post (λ a t. Found s a t × (a.inode ≡ i)) (get_inode i s)
unfolding get_inode ◌>>=◌
get_inode-Post i s v =
    or_enoent-Post (s.mount.nodes i) s v λ a e. ((Still-refl s, v.known i a e), v.keyed i a e)

pub get_directory_content-Post :
    (i : Inode) (s : Fs) → IsValid s → Post (Listed i s) (get_directory_content i s)
unfolding get_directory_content ◌>>=◌
get_directory_content-Post i s v =
    or_enoent-Post (s.mount.directories i) s v
      λ es e. (Still-refl s, v.directory i es e, v.entries i es e)

pub lookup_name-Post :
    (parent : Inode) (name : Bytes) (s : Fs)
    → IsValid s
    → Post (Found s) (lookup_name parent name s)
unfolding lookup_name
lookup_name-Post parent name s v =
    bind-Post _ _ _ (get_directory_content-Post parent s v) λ es t vt h.
      bind-Post _ _ _
        (or_enoent-Post {Q = λ _ u. Still t u} (BTreeMap.get name es) t vt λ e f. Still-refl t)
        λ e u vu still.
          Post-map (λ a w found. (Still-trans (Still-trans h.0 still) found.0.0, found.0.1))
            (get_inode-Post e.0 u vu)

lookup_name_same : (parent : Inode) (name : Bytes) (s : Fs) → (lookup_name parent name s).1 ≡ s
unfolding lookup_name ◌>>=◌
lookup_name_same parent name s = ground arith

pub attempt_lookup-Post :
    (parent : Inode) (name : Bytes) (s : Fs)
    → IsValid s
    → Post (λ o t. Still s t × Maybe (Found s) o t) (attempt (lookup_name parent name) s)
attempt_lookup-Post parent name s v =
    attempt-Post (lookup_name parent name s) (lookup_name_same parent name s)
      (lookup_name-Post parent name s v)

refuse_present-Post :
    (s : Fs) (o : Option InodeAttributes) (t : Fs)
    → IsValid t
    → Still s t
    → Post (λ _ u. Still s u) (refuse_present o t)
refuse_present-Post s none t v h = record { holds = (v, h) }
refuse_present-Post s (some a) t v h = record { holds = v }

pub require_absent-Post :
    (parent : Inode) (name : Bytes) (s : Fs)
    → IsValid s
    → Post (λ _ t. Still s t) (require_absent parent name s)
unfolding require_absent
require_absent-Post parent name s v =
    bind-Post _ _ _ (attempt_lookup-Post parent name s v)
      λ o t vt h. refuse_present-Post s o t vt h.0

pub require_access-Post :
    (req : Request) (attrs : InodeAttributes) (mask : ℕ) (s : Fs)
    → IsValid s
    → Post (λ _ t. Still s t) (require_access req attrs mask s)
unfolding require_access
require_access-Post req attrs mask s v =
    elim (Bool-cases (check_access attrs.uid attrs.gid attrs.mode req.uid req.gid mask)) [
      | inl granted ↦ rw granted (record { holds = (v, Still-refl s) })
      | inr refused ↦ rw refused (record { holds = v })
    ]

lookup_directory_same : (d : Inode) (s : Fs) → (get_directory_content d s).1 ≡ s
unfolding get_directory_content ◌>>=◌
lookup_directory_same d s = ground arith

unwrap_found :
    {A : Type 0} {Q : A → Fs → Type 0} (o : Option A) (t : Fs)
    → IsValid t
    → Maybe Q o t
    → Post Q (unwrap o t)
unwrap_found none t v h = record { holds = tt }
unwrap_found (some a) t v h = record { holds = (v, h) }

pub unwrap_directory-Post :
    (d : Inode) (s : Fs) → IsValid s → Post (Listed d s) (unwrap_directory d s)
unfolding unwrap_directory
unwrap_directory-Post d s v =
    bind-Post _ _ _
      (attempt-Post (get_directory_content d s) (lookup_directory_same d s)
        (get_directory_content-Post d s v))
      λ o t vt h. unwrap_found o t vt h.1

pub set_inode-Post :
    (a : InodeAttributes) (s : Fs) → IsValid s → Known s a → Post (λ _ t. Still s t) (set_inode a s)
unfolding set_inode
set_inode-Post a s v k = record { holds = (set_inode-IsValid a s v k, set_inode-Still a s k) }

pub set_directory_content-Post :
    (d : Inode) (es : DirectoryDescriptor) (s : Fs)
    → IsValid s
    → Has s d FileKind.directory
    → EntriesKnown s es
    → Post (λ _ t. Still s t) (set_directory_content d es s)
unfolding set_directory_content
set_directory_content-Post d es s v dir k = record {
  holds = (set_directory_content-IsValid d es s v dir k, set_directory_content-Still d es s);
}
