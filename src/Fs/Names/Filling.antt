-- ===== src/Fs/Names/Filling.antt =====
-- fs.rs: the end of `mkdir`, which enters the new directory twice.
use cultivate.Common.{
  pure, ◌≡◌, ◌∙◌, refl, ap, false, none, some, [], Bytes, bytes_key, bytes_eq, nat_key, nat_eq,
  nat_eq_iff, ok, ◌>>=◌, ◌>>◌, arith, Bool-cases, inl, inr,
}
use mathlib.Core.Path.{fun_ext, ap₂}
use cultivate.HashMap
use cultivate.HashMap.{HashMap}
use cultivate.BTreeMap
use cultivate.Inode.{Inode, FileKind, FileType, InodeAttributes, FileAttr, file_attr, file_type}
use cultivate.Mount.{DirectoryDescriptor}
use cultivate.Mount.Insert.{dot, dot_dot}
use cultivate.Fs.{Fs, F, set_directory_content}
use cultivate.Fs.Node.{unwrap_directory}
use cultivate.Fs.Names.{Namespace, Names, named, allocated, nested, view, observe}
use cultivate.Fs.Names.Calls.{then_ok}
use cultivate.Fs.Names.States.{
  relinked, add_entry-relinked, names_of, names_of-insert, view-relinked_of,
}

-- Naming one inode twice.
named_twice :
    (name : Bytes) (c : Names) (e : Inode × FileKind)
    → named name e (named name e c) ≡ named name e c
named_twice name c e = fun_ext λ other. elim (Bool-cases (bytes_eq name other)) [
  | inl same ↦ rw same refl
  | inr apart ↦ rw apart refl
]

insert_again :
    (parent new : Inode) (c d : Names) (m : HashMap Inode Names)
    → nat_eq new parent ≡ false
    → HashMap.insert parent c (HashMap.insert new d (HashMap.insert parent c m))
      ≡ HashMap.insert new d (HashMap.insert parent c m)
insert_again parent new c d m apart = fun_ext λ j. ground (arith, apart)

-- The end of `mkdir`: the entry, the new directory, and the entry again.
abbrev pub fill_directory : Inode → Bytes → InodeAttributes → F FileAttr
fill_directory parent name attrs = do
  entries ← unwrap_directory parent
  set_directory_content parent (BTreeMap.insert name (attrs.inode, attrs.kind) entries)
  set_directory_content attrs.inode (
      BTreeMap.insert dot_dot (parent, FileKind.directory)
        (BTreeMap.insert dot (attrs.inode, FileKind.directory) []))
  entries' ← unwrap_directory parent
  set_directory_content parent (BTreeMap.insert name (attrs.inode, FileKind.directory) entries')
  pure (file_attr attrs)

-- The names that the new directory has.
abbrev own_names : Inode → Inode → Names
own_names new parent =
    named dot_dot (parent, FileKind.directory) (named dot (new, FileKind.directory) (λ other. none))

own_names_lem :
    (new parent : Inode)
    → names_of (
        BTreeMap.insert dot_dot
          (parent, FileKind.directory)
          (BTreeMap.insert dot (new, FileKind.directory) []))
      ≡ own_names new parent
unfolding BTreeMap.get
own_names_lem new parent =
    names_of-insert dot_dot (parent, FileKind.directory) _
    ∙ ap (named dot_dot (parent, FileKind.directory))
        (names_of-insert dot (new, FileKind.directory) [])

module _ (parent : Inode) (name : Bytes) (es : DirectoryDescriptor) (s : Fs) where
  -- the entries of the parent with the new one, and the three states
  abbrev pub with_entry : Inode → DirectoryDescriptor
  with_entry new = BTreeMap.insert name (new, FileKind.directory) es

  abbrev pub first : Inode → Fs
  first new = relinked parent (with_entry new) s

  abbrev pub second : Inode → Fs
  second new =
      relinked new
        (BTreeMap.insert dot_dot (parent, FileKind.directory)
          (BTreeMap.insert dot (new, FileKind.directory) []))
        (first new)

  abbrev pub third : Inode → Fs
  third new =
      relinked parent (BTreeMap.insert name (new, FileKind.directory) (with_entry new)) (second new)

  pub fill_directory_lem :
      (attrs : InodeAttributes)
      → attrs.kind ≡ FileKind.directory
      → nat_eq attrs.inode parent ≡ false
      → s.mount.directories parent ≡ some es
      → fill_directory parent name attrs s ≡ (ok (file_attr attrs), third attrs.inode)
  unfolding relinked set_directory_content
  fill_directory_lem attrs kind apart listed =
      add_entry-relinked parent name _ es _ s listed
      ∙ ap
          (λ k.
            (do
              set_directory_content attrs.inode (
                  BTreeMap.insert dot_dot (parent, FileKind.directory)
                    (BTreeMap.insert dot (attrs.inode, FileKind.directory) []))
              entries' ← unwrap_directory parent
              set_directory_content parent
                  (BTreeMap.insert name (attrs.inode, FileKind.directory) entries')
              pure (file_attr attrs))
              (relinked parent (BTreeMap.insert name (attrs.inode, k) es) s))
          kind
      ∙ then_ok _ _ _ refl
      ∙ add_entry-relinked parent name _ (with_entry attrs.inode) _ _
          (rw (apart, (nat_eq_iff parent parent).1 refl) refl)

  abbrev filled : Inode → HashMap Inode Names → HashMap Inode Names
  filled new m =
      HashMap.insert new (own_names new parent)
        (HashMap.insert parent (named name (new, FileKind.directory) (names_of es)) m)

  view-third :
      (new : Inode)
      → nat_eq new parent ≡ false
      → view (third new) ≡ record (view s) { names = filled new (view s).names }
  view-third new apart =
      let c = named name (new, FileKind.directory) (names_of es) in
      view-relinked_of parent _ _ c _
        (names_of-insert name (new, FileKind.directory) _
          ∙ ap (named name (new, FileKind.directory))
              (names_of-insert name (new, FileKind.directory) es)
          ∙ named_twice name (names_of es) (new, FileKind.directory))
        (view-relinked_of new _ _ (own_names new parent) _ (own_names_lem new parent) (
          view-relinked_of parent _ s c _ (names_of-insert name (new, FileKind.directory) es) refl))
      ∙ ap (λ (ns : HashMap Inode Names). record (view s) { names = ns })
          (insert_again parent new c (own_names new parent) (view s).names apart)

  pub third_shown :
      (attrs : InodeAttributes) (n : Namespace)
      → attrs.kind ≡ FileKind.directory
      → attrs.inode ≡ n.next
      → nat_eq attrs.inode parent ≡ false
      → view s ≡ allocated FileKind.directory n
      → observe (ok (file_attr attrs), third attrs.inode)
        ≡ (ok (n.next, FileType.directory), nested parent name (names_of es) n)
  unfolding file_attr file_type
  third_shown attrs n kind number apart shows =
      ap₂ (λ k x. (ok (attrs.inode, file_type k), x)) kind
        (view-third attrs.inode apart
          ∙ ap (λ (x : Namespace). record x { names = filled attrs.inode x.names }) shows)
      ∙ ap
          (λ i. (
            ok (i, FileType.directory),
            record (allocated FileKind.directory n) { names = filled i n.names },
          ))
          number
