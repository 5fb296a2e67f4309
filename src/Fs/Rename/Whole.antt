-- ===== src/Fs/Rename/Whole.antt =====
-- fs.rs: `rename` to a name that is free.
use Prim.Native.Nat.{bit_and}
use cultivate.Common.{
  ◌>>◌, ◌⊎◌, not, Bool-cases, inl, inr, sym, ap, nat_key, ℕ, ◌≡◌, ◌∙◌, refl, false, ◌&&◌, none,
  some, Bytes, bytes_key, nat_eq, bytes_eq, if◌then◌else◌, ok, ◌>>=◌,
}
use cultivate.BTreeMap
use cultivate.Mount.{DirectoryDescriptor}
use cultivate.Inode.Clock.{SystemTime}
use cultivate.Inode.{Inode, InodeAttributes, FileKind, kind_eq}
use cultivate.Fs.{Fs, Request, on_mount, get_directory_content, set_directory_content}
use mathlib.Core.Path.{subst}
use cultivate.Mount
use cultivate.Mount.Insert.{dot_dot}
use cultivate.Fs.Node.{unwrap_directory}
use cultivate.Fs.Valid.{IsValid}
use cultivate.Fs.Names.Calls.{
  then_ok, get_inode-some, require_access_open, Meets, no_name, inode, lookup_name-Meets,
}
use cultivate.Fs.Rename.{
  move_entry, rename_exchange, refuse_exchange, require_replaceable, require_movable,
  unlink_existing, stamp, point_up, rename,
}
use cultivate.Fs.Rename.Moves.{
  entry_in, entry_in-insert, HasListing, move_entry-HasListing, entry_at, move_entry-entry_at,
}

refuse_exchange-ok :
    (flags : ℕ) (s : Fs) → bit_and flags rename_exchange ≡ 0 → refuse_exchange flags s ≡ (ok tt, s)
unfolding refuse_exchange
refuse_exchange-ok flags s plain = rw plain refl

module _ (d : Inode) (name : Bytes) (s : Fs) (free : Meets d name s none) where
  require_replaceable-free : require_replaceable d name s ≡ (ok tt, s)
  unfolding require_replaceable ◌>>=◌
  require_replaceable-free = rw (lookup_name-Meets d name s free) refl

  unlink_existing-free : (now : ℕ → SystemTime) → unlink_existing now d name s ≡ (ok tt, s)
  unfolding unlink_existing ◌>>=◌
  unlink_existing-free now = rw (lookup_name-Meets d name s free) refl

require_movable-open :
    (req : Request) (p q : Inode) (a : InodeAttributes) (s : Fs)
    → a.mode ≡ 0o777
    → require_movable req p q a s ≡ (ok tt, s)
unfolding require_movable
require_movable-open req p q a s mode =
    elim (Bool-cases (kind_eq a.kind FileKind.directory && not (nat_eq p q))) [
      | inl asked ↦ rw asked (require_access_open req a s mode)
      | inr free ↦ rw free refl
    ]

-- A directory has a listing.
abbrev pub Listed : Fs → Inode → FileKind → Type 0
Listed s i kind = (kind_eq kind FileKind.directory ≡ false) ⊎ HasListing s.mount.directories i

module _ (now : ℕ → SystemTime) where
  -- New times are no new entries.
  stamp-directories :
      (p q a : InodeAttributes) (s : Fs)
      → (t : Fs) × (stamp now p q a s ≡ (ok tt, t)) × (t.mount.directories ≡ s.mount.directories)
  unfolding stamp ◌>>=◌
  stamp-directories p q a s = (_, refl, refl)

  -- A moved directory leads up to its new parent.
  point_up-entry_at :
      (q : Inode) (a : InodeAttributes) (s : Fs)
      → Listed s a.inode a.kind
      → (t : Fs) × (point_up now q a s ≡ (ok tt, t))
        × ((d : Inode) (n : Bytes)
            → entry_at t d n ≡ (
                if kind_eq a.kind FileKind.directory && (nat_eq a.inode d && bytes_eq dot_dot n)
                then some (q, FileKind.directory)
                else entry_at s d n))
  unfolding point_up unwrap_directory get_directory_content on_mount Mount.get_directory_content
      set_directory_content Mount.set_directory_content ◌>>=◌ entry_at
  point_up-entry_at q a s (inl plain) = rw plain (s, refl, λ d n. refl)
  point_up-entry_at q a s (inr (es, there)) =
      elim (Bool-cases (kind_eq a.kind FileKind.directory)) [
        | inl up ↦
            rw (up, there)
              (
                _,
                refl,
                λ d n.
                    entry_in-insert a.inode dot_dot (q, FileKind.directory) es s.mount.directories d
                      n there,
              )
        | inr plain ↦ rw plain (s, refl, λ d n. refl)
      ]

  -- From the moves between the directories to the end.
  finish-entry_at :
      (p : Inode) (name : Bytes) (q : Inode) (new_name : Bytes) (a pa qa : InodeAttributes)
      (es ds : DirectoryDescriptor) (s : Fs)
      → s.mount.directories p ≡ some es
      → s.mount.directories q ≡ some ds
      → Listed s a.inode a.kind
      → (t : Fs) × ((do move_entry now p name q new_name a; stamp now pa qa a; point_up now q a) s
          ≡ (ok tt, t))
        × ((d : Inode) (n : Bytes)
            → entry_at t d n ≡ (
                if kind_eq a.kind FileKind.directory && (nat_eq a.inode d && bytes_eq dot_dot n)
                then some (q, FileKind.directory)
                else if nat_eq q d && bytes_eq new_name n
                then some (a.inode, a.kind)
                else if nat_eq p d && bytes_eq name n
                then none
                else entry_at s d n))
  unfolding entry_at
  finish-entry_at p name q new_name a pa qa es ds s source target listed =
      let (t, moved, shows) = move_entry-entry_at now p name q new_name a es ds s source target in
      let (u, stamped, same) = stamp-directories pa qa a t in
      let after : Listed u a.inode a.kind = elim listed [
        | inl plain ↦ inl plain
        | inr h ↦ inr (
            subst (λ m. HasListing m a.inode) (ap (λ r. r.1.mount.directories) moved ∙ sym same)
              (move_entry-HasListing now p name q new_name a es ds s a.inode source target h))
      ] in
      let (w, pointed, ends) = point_up-entry_at q a u after in
      (
        w,
        then_ok _ _ _ moved ∙ then_ok _ _ _ stamped ∙ pointed,
        λ d n.
            ends d n
            ∙ ap
                (λ o.
                  if kind_eq a.kind FileKind.directory && (nat_eq a.inode d && bytes_eq dot_dot n)
                  then some (q, FileKind.directory)
                  else o)
                (ap (λ m. entry_in m d n) same ∙ shows d n),
      )

  -- In a valid state, `rename` without the exchange flag of a name in a directory, to a name that is free
  -- in a directory, replies without an error or a panic, if the inode that the name stands for has a
  -- listing in case it is a directory; then the new name in the new directory stands for the inode, the
  -- old name in the old directory for nothing, `..` in the inode, if it is a directory, for the new
  -- directory, and every other name in every directory for what it did.
  pub rename-entry_at :
      (req : Request) (p : Inode) (name : Bytes) (q : Inode) (new_name : Bytes) (flags : ℕ)
      (i : Inode) (kind : FileKind) (es ds : DirectoryDescriptor) (s : Fs)
      → IsValid s
      → s.mount.directories p ≡ some es
      → BTreeMap.get name es ≡ some (i, kind)
      → s.mount.directories q ≡ some ds
      → BTreeMap.get new_name ds ≡ none
      → Listed s i kind
      → bit_and flags rename_exchange ≡ 0
      → (t : Fs) × (rename now req p name q new_name flags s ≡ (ok tt, t))
        × ((d : Inode) (n : Bytes)
            → entry_at t d n ≡ (
                if kind_eq kind FileKind.directory && (nat_eq i d && bytes_eq dot_dot n)
                then some (q, FileKind.directory)
                else if nat_eq q d && bytes_eq new_name n
                then some (i, kind)
                else if nat_eq p d && bytes_eq name n
                then none
                else entry_at s d n))
  unfolding rename
  rename-entry_at req p name q new_name flags i kind es ds s v source there target free listed off =
      let (a, here, kind_of) = v.entries p es source name i kind there in
      let number = v.keyed i a here in
      let (pa, p_here, _) = v.directory p es source in
      let (qa, q_here, _) = v.directory q ds target in
      let taken : Meets p name s (some a) = inode es (i, kind) a source there here number kind_of in
      let absent : Meets q new_name s none = no_name ds target free in
      let listed' : Listed s a.inode a.kind = rw (number, kind_of) listed in
      let (t, finished, shows) =
        finish-entry_at p name q new_name a pa qa es ds s source target listed' in
      (
        t,
        then_ok _ _ _ (lookup_name-Meets p name s taken)
            ∙ then_ok _ _ _ (get_inode-some p pa s p_here)
            ∙ then_ok _ _ _ (require_access_open req pa s (v.known p pa p_here).mode)
            ∙ then_ok _ _ _ (get_inode-some q qa s q_here)
            ∙ then_ok _ _ _ (require_access_open req qa s (v.known q qa q_here).mode)
            ∙ then_ok _ _ _ (refuse_exchange-ok flags s off)
            ∙ then_ok _ _ _ (require_replaceable-free q new_name s absent)
            ∙ then_ok _ _ _ (require_movable-open req p q a s (v.known i a here).mode)
            ∙ then_ok _ _ _ (unlink_existing-free q new_name s absent now)
            ∙ finished,
        λ d n. shows d n ∙ rw (number, kind_of) refl,
      )
