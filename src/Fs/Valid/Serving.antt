-- ===== src/Fs/Valid/Serving.antt =====
-- fs.rs: requests one after the other, and the validity of the states they lead to.
use cultivate.Common.{ℕ, ◌≡◌, some, Bytes, Outcome, ok, err, panic, ℤ}
use mathlib.Core.Path.{subst}
use cultivate.Errno.{Errno}
use cultivate.ContentHash.{Blake3}
use cultivate.Inode.Clock.{SystemTime}
use cultivate.Inode.{Inode, FileKind, InodeAttributes}
use cultivate.Fs.{Fs, F, Request}
use cultivate.Fs.Listing.{ReplyDirectory, lookup, getattr, setattr, readdir}
use cultivate.Fs.Open.{open_file, opendir, release}
use cultivate.Fs.Content.{read, write, readlink}
use cultivate.Fs.Create.{symlink, mkdir, mknod}
use cultivate.Fs.Rename.{rename}
use cultivate.Fs.Valid.{IsValid}
use cultivate.Fs.Valid.Nodes.{Room}
use cultivate.Fs.Valid.Making.{Survives, mkdir-Survives}
use cultivate.Fs.Valid.Special.{mknod-Survives, symlink-Survives}
use cultivate.Fs.Valid.Moving.{rename-Survives}
use cultivate.Fs.Valid.Writing.{write-Survives}
use cultivate.Fs.Valid.Others.{
  lookup-Survives, getattr-Survives, setattr-Survives, readlink-Survives, read-Survives,
  readdir-Survives, open_file-Survives, opendir-Survives, release-Survives,
}

-- A value or an error code, not a panic.
abbrev Replied : {A : Type 0} → Outcome Errno A → Type 0
Replied (ok a) = Unit
Replied (err e) = Unit
Replied panic = ⊥

-- The handler replies, and leaves the state `t`.
abbrev pub Answers : {A : Type 0} → F A → Fs → Fs → Type 0
Answers m s t = Replied (m s).0 × ((m s).1 ≡ t)

answered :
    {A : Type 0} (p : Outcome Errno A × Fs) (t : Fs)
    → Replied p.0
    → p.1 ≡ t
    → Survives p
    → IsValid t
answered (ok a, s) t r e h = subst IsValid e h.holds.0
answered (err x, s) t r e h = subst IsValid e h.holds
answered (panic, s) t r e h = elim r [ ]

module _ (b : Blake3) (now : ℕ → SystemTime) (d : ReplyDirectory) where
  -- One request. A write goes to a file, as the kernel has it, and where an inode is made the counter
  -- has not come to its end.
  pub data Step (s t : Fs) : Type 0 where
    looked_up : (i : Inode) (name : Bytes) → Answers (lookup i name) s t → Step s t
    got_attributes : (i : Inode) → Answers (getattr i) s t → Step s t
    set_attributes : (i : Inode) → Answers (setattr i) s t → Step s t
    listed : (i : Inode) (offset : ℤ) (r : d.Buffer) → Answers (readdir d i offset r) s t → Step s t
    opened :
        (req : Request) (i : Inode) (flags : ℕ) → Answers (open_file req i flags) s t → Step s t
    opened_directory :
        (req : Request) (i : Inode) (flags : ℕ) → Answers (opendir req i flags) s t → Step s t
    released : (i : Inode) → Answers (release i) s t → Step s t
    read_file :
        (i : Inode) (fh : ℕ) (offset : ℤ) (size : ℕ)
        → Answers (read i fh offset size) s t
        → Step s t
    written :
        (i : Inode) (fh : ℕ) (offset : ℤ) (bytes : Bytes)
        → ((a : InodeAttributes) → s.mount.nodes i ≡ some a → a.kind ≡ FileKind.file)
        → Answers (write b now i fh offset bytes) s t
        → Step s t
    read_link : (i : Inode) → Answers (readlink i) s t → Step s t
    made_symlink :
        (req : Request) (i : Inode) (name target : Bytes)
        → Room s
        → Answers (symlink b now req i name target) s t
        → Step s t
    made_directory :
        (req : Request) (i : Inode) (name : Bytes) (mode : ℕ)
        → Room s
        → Answers (mkdir now req i name mode) s t
        → Step s t
    made_node :
        (req : Request) (i : Inode) (name : Bytes) (mode : ℕ)
        → Room s
        → Answers (mknod now req i name mode) s t
        → Step s t
    renamed :
        (req : Request) (i : Inode) (name : Bytes) (j : Inode) (new_name : Bytes) (flags : ℕ)
        → Answers (rename now req i name j new_name flags) s t
        → Step s t

  pub Step-IsValid : {s t : Fs} → IsValid s → Step s t → IsValid t
  Step-IsValid v (looked_up i name (r, e)) = answered _ _ r e (lookup-Survives i name _ v)
  Step-IsValid v (got_attributes i (r, e)) = answered _ _ r e (getattr-Survives i _ v)
  Step-IsValid v (set_attributes i (r, e)) = answered _ _ r e (setattr-Survives i _ v)
  Step-IsValid v (listed i offset buffer (r, e)) =
      answered _ _ r e (readdir-Survives d i offset buffer _ v)
  Step-IsValid v (opened req i flags (r, e)) = answered _ _ r e (open_file-Survives req i flags _ v)
  Step-IsValid v (opened_directory req i flags (r, e)) =
      answered _ _ r e (opendir-Survives req i flags _ v)
  Step-IsValid v (released i (r, e)) = answered _ _ r e (release-Survives i _ v)
  Step-IsValid v (read_file i fh offset size (r, e)) =
      answered _ _ r e (read-Survives i fh offset size _ v)
  Step-IsValid v (written i fh offset bytes file (r, e)) =
      answered _ _ r e (write-Survives b now i fh offset bytes _ v file)
  Step-IsValid v (read_link i (r, e)) = answered _ _ r e (readlink-Survives i _ v)
  Step-IsValid v (made_symlink req i name target room (r, e)) =
      answered _ _ r e (symlink-Survives b now req i name target _ v room)
  Step-IsValid v (made_directory req i name mode room (r, e)) =
      answered _ _ r e (mkdir-Survives now req i name mode _ v room)
  Step-IsValid v (made_node req i name mode room (r, e)) =
      answered _ _ r e (mknod-Survives now req i name mode _ v room)
  Step-IsValid v (renamed req i name j new_name flags (r, e)) =
      answered _ _ r e (rename-Survives now req i name j new_name flags _ v)

  -- Requests one after the other.
  pub data Reachable (s : Fs) : Fs → Type 0 where
    start : Reachable s s
    next : {t u : Fs} → Reachable s t → Step t u → Reachable s u

  -- From a valid state, every state that requests answered one after the other lead to is valid, in
  -- whatever order they come: lookup, getattr, setattr, readdir, open, opendir, release, read, write,
  -- readlink, symlink, mkdir, mknod and rename, when writes go to regular files and inode numbers are
  -- left where one is made.
  pub Reachable-IsValid : {s t : Fs} → IsValid s → Reachable s t → IsValid t
  Reachable-IsValid v start = v
  Reachable-IsValid v (next rs r) = Step-IsValid (Reachable-IsValid v rs) r
