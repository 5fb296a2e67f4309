-- ===== src/Fs/Storing.antt =====
-- fs.rs: what a request does to the content store that all mounts share: it only adds files and links.
-- With a rule for each call that handlers are made of.
pub mod Handlers
pub mod Steps
use cultivate.Common.{
  ◌≡◌, refl, Bool, true, false, Option, none, some, Bytes, Outcome, ok, err, panic, Run, pure,
  throw, abort, unwrap, assert, attempt, attempt_result, gets, modify, if◌then◌else◌, ◌>>=◌,
  continue, ℕ,
}
use cultivate.Daemon.Grows.{Within, Within-refl, Within-trans, insert-Within}
use cultivate.Errno.{Errno}
use cultivate.Store.{Store}
use cultivate.Mount
use cultivate.Mount.{Mount, DirectoryDescriptor}
use cultivate.Inode.Clock.{SystemTime}
use cultivate.Inode.{Inode, FileKind, InodeAttributes}
use cultivate.Fs.{
  Fs, F, Request, on_mount, or_enoent, get_inode, get_directory_content, set_inode,
  set_directory_content, lookup_name,
}
use cultivate.Fs.Access.{require_access}
use cultivate.Fs.Node.{unwrap_directory, require_absent, refuse_present, touch, insert_link}

pub record Adds (s t : Store) : Type 0 where
  pub files : Within s.files t.files
  pub symlinks : Within s.symlinks t.symlinks
  pub trees : Within s.trees t.trees
  pub commits : Within s.commits t.commits

pub Adds-refl : (s : Store) → Adds s s
Adds-refl s = record {
  files = Within-refl s.files;
  symlinks = Within-refl s.symlinks;
  trees = Within-refl s.trees;
  commits = Within-refl s.commits;
}

pub Adds-trans : {s t u : Store} → Adds s t → Adds t u → Adds s u
Adds-trans p q = record {
  files = Within-trans p.files q.files;
  symlinks = Within-trans p.symlinks q.symlinks;
  trees = Within-trans p.trees q.trees;
  commits = Within-trans p.commits q.commits;
}

-- The call only adds to the store, whatever its outcome.
pub record Adding {A : Type 0} (m : F A) : Type 0 where
  pub at : (s : Fs) → Adds s.store (m s).1.store

module _ {A : Type 0} where
  pub Adding-pure : (a : A) → Adding (pure {S = Fs} {E = Errno} a)
  Adding-pure a = record { at = λ s. Adds-refl s.store }

  pub Adding-throw : (e : Errno) → Adding (throw {A = A} e)
  Adding-throw e = record { at = λ s. Adds-refl s.store }

  pub Adding-abort : Adding (abort {A = A})
  Adding-abort = record { at = λ s. Adds-refl s.store }

  pub Adding-unwrap : (o : Option A) → Adding (unwrap o)
  Adding-unwrap none = record { at = λ s. Adds-refl s.store }
  Adding-unwrap (some a) = record { at = λ s. Adds-refl s.store }

  pub Adding-or_enoent : (o : Option A) → Adding (or_enoent o)
  Adding-or_enoent none = record { at = λ s. Adds-refl s.store }
  Adding-or_enoent (some a) = record { at = λ s. Adds-refl s.store }

  pub Adding-gets : (f : Fs → A) → Adding (gets f)
  Adding-gets f = record { at = λ s. Adds-refl s.store }

  pub Adding-on_mount : (f : Run Mount Errno A) → Adding (on_mount f)
  unfolding on_mount
  Adding-on_mount f = record { at = λ s. Adds-refl s.store }

  pub Adding-if : (b : Bool) (m n : F A) → Adding m → Adding n → Adding (if b then m else n)
  Adding-if true m n g h = g
  Adding-if false m n g h = h

  attempt_result-Adds :
      (s : Store) (p : Outcome Errno A × Fs)
      → Adds s p.1.store
      → Adds s (attempt_result p.0 p.1).1.store
  attempt_result-Adds s (ok a, t) g = g
  attempt_result-Adds s (err e, t) g = g
  attempt_result-Adds s (panic, t) g = g

  pub Adding-attempt : (m : F A) → Adding m → Adding (attempt m)
  Adding-attempt m g = record { at = λ s. attempt_result-Adds s.store (m s) (g.at s) }

module _ {A B : Type 0} where
  continue-Adds :
      (s : Store) (r : Outcome Errno A) (t : Fs) (f : A → F B)
      → Adds s t.store
      → ((a : A) → Adding (f a))
      → Adds s (continue r f t).1.store
  continue-Adds s (ok a) t f g h = Adds-trans g ((h a).at t)
  continue-Adds s (err e) t f g h = g
  continue-Adds s panic t f g h = g

  pub Adding-bind : (m : F A) (f : A → F B) → Adding m → ((a : A) → Adding (f a)) → Adding (m >>= f)
  unfolding ◌>>=◌
  Adding-bind m f g h = record { at = λ s. continue-Adds s.store (m s).0 (m s).1 f (g.at s) h }

pub Adding-assert : (b : Bool) → Adding (assert b)
Adding-assert true = record { at = λ s. Adds-refl s.store }
Adding-assert false = record { at = λ s. Adds-refl s.store }

pub Adding-modify : (f : Fs → Fs) → ((s : Fs) → Adds s.store (f s).store) → Adding (modify f)
Adding-modify f g = record { at = g }

pub ruleset adding = (
  Adding-pure, Adding-throw, Adding-abort, Adding-unwrap, Adding-or_enoent, Adding-gets,
  Adding-on_mount, Adding-if, Adding-attempt, Adding-bind, Adding-assert,
)

pub get_inode-Adding : (i : Inode) → Adding (get_inode i)
unfolding get_inode
get_inode-Adding i = search adding

pub get_directory_content-Adding : (i : Inode) → Adding (get_directory_content i)
unfolding get_directory_content
get_directory_content-Adding i = search adding

pub set_inode-Adding : (a : InodeAttributes) → Adding (set_inode a)
unfolding set_inode
set_inode-Adding a = search adding

pub set_directory_content-Adding :
    (i : Inode) (es : DirectoryDescriptor) → Adding (set_directory_content i es)
unfolding set_directory_content
set_directory_content-Adding i es = search adding

pub lookup_name-Adding : (i : Inode) (name : Bytes) → Adding (lookup_name i name)
unfolding lookup_name
lookup_name-Adding i name = search (adding, get_inode-Adding, get_directory_content-Adding)

pub require_access-Adding :
    (req : Request) (a : InodeAttributes) (mask : ℕ) → Adding (require_access req a mask)
unfolding require_access
require_access-Adding req a mask = search adding

pub unwrap_directory-Adding : (i : Inode) → Adding (unwrap_directory i)
unfolding unwrap_directory
unwrap_directory-Adding i = search (adding, get_directory_content-Adding)

refuse_present-Adding : (o : Option InodeAttributes) → Adding (refuse_present o)
refuse_present-Adding none = Adding-pure tt
refuse_present-Adding (some a) = Adding-throw _

pub require_absent-Adding : (i : Inode) (name : Bytes) → Adding (require_absent i name)
unfolding require_absent
require_absent-Adding i name = search (adding, lookup_name-Adding, refuse_present-Adding)

pub touch-Adding : (now : ℕ → SystemTime) (a : InodeAttributes) → Adding (touch now a)
unfolding touch
touch-Adding now a = search (adding, set_inode-Adding)

-- The rules for the calls that handlers share.
pub ruleset adding_nodes = (
  get_inode-Adding, get_directory_content-Adding, set_inode-Adding, set_directory_content-Adding,
  lookup_name-Adding, require_access-Adding, unwrap_directory-Adding, require_absent-Adding,
  touch-Adding,
)
