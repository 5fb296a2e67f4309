-- ===== src/Fs/Rename/Moves.antt =====
-- fs.rs: the entries that `rename` moves.
use cultivate.Common.{
  nat_key, ℕ, ◌≡◌, refl, ◌&&◌, Option, none, some, Bytes, nat_eq, nat_eq_iff, bytes_eq,
  if◌then◌else◌, ok, ◌>>=◌, ◌>>=?◌, Bool-cases, inl, inr,
}
use mathlib.Core.Path.{subst, ap, ◌∙◌}
use cultivate.HashMap
use cultivate.HashMap.{HashMap}
use cultivate.BTreeMap
use cultivate.BTreeMap.{get-insert, get-remove}
use cultivate.Mount
use cultivate.Mount.{DirectoryDescriptor}
use cultivate.Inode.Clock.{SystemTime}
use cultivate.Inode.{Inode, InodeAttributes, FileKind}
use cultivate.Fs.{Fs, on_mount, get_directory_content, set_directory_content}
use cultivate.Fs.Node.{unwrap_directory}
use cultivate.Fs.Rename.{move_entry}

-- What a name in a directory stands for.
unfoldable pub entry_at : Fs → Inode → Bytes → Option (Inode × FileKind)
entry_at s d name = s.mount.directories d >>=? λ es. BTreeMap.get name es

abbrev pub Directories : Type 0
Directories = HashMap Inode DirectoryDescriptor

abbrev pub entry_in : Directories → Inode → Bytes → Option (Inode × FileKind)
entry_in m d name = m d >>=? λ es. BTreeMap.get name es

pub entry_in-insert :
    (q : Inode) (name : Bytes) (v : Inode × FileKind) (es : DirectoryDescriptor) (m : Directories)
    (d : Inode) (n : Bytes)
    → m q ≡ some es
    → entry_in (HashMap.insert q (BTreeMap.insert name v es) m) d n
      ≡ (if nat_eq q d && bytes_eq name n then some v else entry_in m d n)
entry_in-insert q name v es m d n found = elim (Bool-cases (nat_eq q d)) [
  | inl same ↦
      let here : m d ≡ some es = subst (λ i. m i ≡ some es) ((nat_eq_iff q d).0 same) found in
      rw (same, here) (get-insert name n v es)
  | inr other ↦ rw other refl
]

entry_in-remove :
    (q : Inode) (name : Bytes) (es : DirectoryDescriptor) (m : Directories) (d : Inode) (n : Bytes)
    → m q ≡ some es
    → entry_in (HashMap.insert q (BTreeMap.remove name es) m) d n
      ≡ (if nat_eq q d && bytes_eq name n then none else entry_in m d n)
entry_in-remove q name es m d n found = elim (Bool-cases (nat_eq q d)) [
  | inl same ↦
      let here : m d ≡ some es = subst (λ i. m i ≡ some es) ((nat_eq_iff q d).0 same) found in
      rw (same, here) (get-remove name n es)
  | inr other ↦ rw other refl
]

entry_in-moved :
    (p : Inode) (name : Bytes) (q : Inode) (new_name : Bytes) (v : Inode × FileKind)
    (es fs : DirectoryDescriptor) (m : Directories) (d : Inode) (n : Bytes)
    → m p ≡ some es
    → HashMap.insert p (BTreeMap.remove name es) m q ≡ some fs
    → entry_in
        (HashMap.insert q
          (BTreeMap.insert new_name v fs)
          (HashMap.insert p (BTreeMap.remove name es) m))
        d
        n
      ≡ (if nat_eq q d && bytes_eq new_name n
          then some v
          else if nat_eq p d && bytes_eq name n
          then none
          else entry_in m d n)
entry_in-moved p name q new_name v es fs m d n source target =
    entry_in-insert q new_name v fs (HashMap.insert p (BTreeMap.remove name es) m) d n target
    ∙ ap (λ o. if nat_eq q d && bytes_eq new_name n then some v else o)
        (entry_in-remove p name es m d n source)

abbrev pub HasListing : Directories → Inode → Type 0
HasListing m i = (es : DirectoryDescriptor) × (m i ≡ some es)

insert-HasListing :
    (k : Inode) (x : DirectoryDescriptor) (m : Directories) (i : Inode)
    → HasListing m i
    → HasListing (HashMap.insert k x m) i
insert-HasListing k x m i (es, h) = elim (Bool-cases (nat_eq k i)) [
  | inl same ↦ (x, rw same refl)
  | inr other ↦ (es, rw other h)
]

module _ (now : ℕ → SystemTime) where
  -- Moving an entry between two directories that exist runs without an error or a panic; then the new
  -- name in the new directory stands for the inode, the old name in the old directory for nothing,
  -- unless it is the same, and every other name in every directory for what it did.
  pub move_entry-entry_at :
      (p : Inode) (name : Bytes) (q : Inode) (new_name : Bytes) (a : InodeAttributes)
      (es ds : DirectoryDescriptor) (s : Fs)
      → s.mount.directories p ≡ some es
      → s.mount.directories q ≡ some ds
      → (t : Fs) × (move_entry now p name q new_name a s ≡ (ok tt, t))
        × ((d : Inode) (n : Bytes)
            → entry_at t d n ≡ (
                if nat_eq q d && bytes_eq new_name n
                then some (a.inode, a.kind)
                else if nat_eq p d && bytes_eq name n
                then none
                else entry_at s d n))
  unfolding move_entry unwrap_directory get_directory_content on_mount Mount.get_directory_content
      set_directory_content Mount.set_directory_content ◌>>=◌ entry_at
  move_entry-entry_at p name q new_name a es ds s source target = elim (Bool-cases (nat_eq p q)) [
    | inl same ↦
        rw (source, same)
          (
            _,
            refl,
            λ d n.
                entry_in-moved p name q new_name (a.inode, a.kind) es (BTreeMap.remove name es)
                  s.mount.directories d n source (rw same refl),
          )
    | inr other ↦
        rw (source, other, target)
          (
            _,
            refl,
            λ d n.
                entry_in-moved p name q new_name (a.inode, a.kind) es ds s.mount.directories d n
                  source (rw other target),
          )
  ]

  -- No directory loses its listing.
  pub move_entry-HasListing :
      (p : Inode) (name : Bytes) (q : Inode) (new_name : Bytes) (a : InodeAttributes)
      (es ds : DirectoryDescriptor) (s : Fs) (i : Inode)
      → s.mount.directories p ≡ some es
      → s.mount.directories q ≡ some ds
      → HasListing s.mount.directories i
      → HasListing (move_entry now p name q new_name a s).1.mount.directories i
  unfolding move_entry unwrap_directory get_directory_content on_mount Mount.get_directory_content
      set_directory_content Mount.set_directory_content ◌>>=◌
  move_entry-HasListing p name q new_name a es ds s i source target h =
      let left : Directories = HashMap.insert p (BTreeMap.remove name es) s.mount.directories in
      let once : HasListing left i =
        insert-HasListing p (BTreeMap.remove name es) s.mount.directories i h in
      elim (Bool-cases (nat_eq p q)) [
        | inl same ↦ rw (source, same) (insert-HasListing q _ left i once)
        | inr other ↦ rw (source, other, target) (insert-HasListing q _ left i once)
      ]
