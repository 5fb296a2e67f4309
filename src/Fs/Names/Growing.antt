-- ===== src/Fs/Names/Growing.antt =====
-- fs.rs: the tree of names only grows when names are made.
use cultivate.Common.{
  ◌+◌, ◌<◌, ◌≤◌, ◌≡◌, ◌∙◌, refl, ap, sym, Bool, Option, none, some, Bytes, bytes_eq, bytes_eq_iff,
  nat_eq, nat_eq_iff, nat_key, >>=?-eq-some, length, ltb, arith, true, false, Bool-cases, inl, inr,
}
use mathlib.Core.Path.{subst}
use mathlib.Core.Option.{none-ne-some}
use cultivate.HashMap
use cultivate.Inode.{Inode, FileKind}
use cultivate.Fs.Names.{
  Namespace, Names, entry, named, allocated, linked, nested, found, look_up, get_kind,
  make_directory, make_node, make_link, directory_made, node_made, link_made,
}

-- The numbers of directories lie below the next one.
abbrev pub Numbered : Namespace → Type 0
Numbered n = (d : Inode) (c : Names) → n.names d ≡ some c → d < n.next

-- At most one number is taken, and every name keeps its meaning.
pub record Grows (n m : Namespace) : Type 0 where
  pub next : m.next ≤ n.next + 1
  pub entries :
      Numbered n
      → (d : Inode) (name : Bytes) (e : Inode × FileKind) → entry n d name ≡ some e
      → entry m d name ≡ some e

pub Grows-refl : (n : Namespace) → Grows n n
Grows-refl n = record { next = omega arith; entries = λ w d name e h. h }

allocated-Grows : (kind : FileKind) (n : Namespace) → Grows n (allocated kind n)
allocated-Grows kind n = record { next = omega arith; entries = λ w d name e h. h }

module _ (kind : FileKind) (parent : Inode) (name : Bytes) (c : Names) (n : Namespace)
    (names : n.names parent ≡ some c) (absent : entry n parent name ≡ none) where
  -- A free name is not one that means something.
  entry_kept :
      (v : Inode × FileKind) (d : Inode) (other : Bytes) (e : Inode × FileKind)
      → entry n d other ≡ some e
      → entry (record n { names = HashMap.insert parent (named name v c) n.names }) d other ≡ some e
  entry_kept v d other e h = elim (Bool-cases (nat_eq parent d)) [
    | inr apart ↦ rw apart h
    | inl same ↦
        let one = (nat_eq_iff parent d).0 same in
        let there : n.names d ≡ some c = subst (λ i. n.names i ≡ some c) one names in
        let free : c name ≡ none = rw names at absent in
        let taken : c other ≡ some e = rw there at h in
        rw same (elim (Bool-cases (bytes_eq name other)) [
          | inl equal ↦
              let e' = (bytes_eq_iff name other).0 equal in
              absurd (none-ne-some _ (sym free ∙ ap c e' ∙ taken))
          | inr differ ↦ rw differ taken
        ])
  ]

  linked-Grows : Grows n (linked kind parent name c n)
  linked-Grows = record {
    next = omega arith;
    entries = λ w d other e h. entry_kept (n.next, kind) d other e h;
  }

  nested-Grows : Grows n (nested parent name c n)
  nested-Grows = record {
    next = omega arith;
    entries = λ w d other e h. elim (Bool-cases (nat_eq n.next d)) [
      | inl same ↦
          let one = (nat_eq_iff n.next d).0 same in
          let (c', there, _) = >>=?-eq-some (n.names d) (λ c. c other) h in
          absurd (omega (arith, one, w d c' there))
      | inr apart ↦ rw apart (entry_kept (n.next, FileKind.directory) d other e h)
    ];
  }

module _ (parent : Inode) (name : Bytes) (n : Namespace) where
  directory_made-Grows :
      (e : Option (Inode × FileKind)) (k : Option FileKind) (c : Option Names)
      → entry n parent name ≡ e
      → n.names parent ≡ c
      → Grows n (directory_made parent name e k c n).1
  directory_made-Grows (some e) k c f g = Grows-refl n
  directory_made-Grows none none c f g = Grows-refl n
  directory_made-Grows none (some k) none f g = allocated-Grows FileKind.directory n
  directory_made-Grows none (some k) (some c) f g =
      nested-Grows FileKind.directory parent name c n g f

  pub make_directory-Grows : Grows n (make_directory parent name n).1
  make_directory-Grows = directory_made-Grows _ (n.kinds parent) _ refl refl

  node_made-Grows :
      (o : Option FileKind) (e : Option (Inode × FileKind)) (k : Option FileKind) (c : Option Names)
      → entry n parent name ≡ e
      → n.names parent ≡ c
      → Grows n (node_made parent name o e k c n).1
  node_made-Grows o (some e) k c f g = Grows-refl n
  node_made-Grows o none none c f g = Grows-refl n
  node_made-Grows none none (some k) c f g = Grows-refl n
  node_made-Grows (some kind) none (some k) none f g = allocated-Grows kind n
  node_made-Grows (some kind) none (some k) (some c) f g = linked-Grows kind parent name c n g f

  pub make_node-Grows :
      (known : Bool) (o : Option FileKind) → Grows n (make_node known o parent name n).1
  make_node-Grows false o = Grows-refl n
  make_node-Grows true o = node_made-Grows o _ (n.kinds parent) _ refl refl

  link_made-Grows :
      (storable : Bool) (k : Option FileKind) (e : Option (Inode × FileKind)) (c : Option Names)
      → entry n parent name ≡ e
      → n.names parent ≡ c
      → Grows n (link_made parent name storable k e c n).1
  link_made-Grows storable none e c f g = Grows-refl n
  link_made-Grows storable (some k) (some e) c f g = allocated-Grows FileKind.symlink n
  link_made-Grows storable (some k) none none f g = allocated-Grows FileKind.symlink n
  link_made-Grows false (some k) none (some c) f g =
      linked-Grows FileKind.symlink parent name c n g f
  link_made-Grows true (some k) none (some c) f g =
      linked-Grows FileKind.symlink parent name c n g f

  pub make_link-Grows : (storable : Bool) → Grows n (make_link storable parent name n).1
  make_link-Grows storable = link_made-Grows storable (n.kinds parent) _ _ refl refl

  found-Grows : (e : Option (Inode × FileKind)) → Grows n (found e n).1
  found-Grows none = Grows-refl n
  found-Grows (some e) = Grows-refl n

  pub look_up-Grows : Grows n (look_up parent name n).1
  look_up-Grows = elim (Bool-cases (ltb 140 (length name))) [
    | inl long ↦ rw long (Grows-refl n)
    | inr short ↦ rw short (found-Grows (entry n parent name))
  ]

  pub get_kind-Grows : Grows n (get_kind parent n).1
  get_kind-Grows = found-Grows _
