-- ===== src/Fs/Names/Making.antt =====
-- fs.rs: `mkdir`, seen through the tree of names.
use cultivate.Common.{
  ℕ, ◌≡◌, ◌∙◌, refl, ap, false, Option, none, some, Bytes, bytes_key, nat_key, nat_eq, panic, arith,
  Option-cases, inl, inr,
}
use cultivate.Inode.Clock.{SystemTime}
use cultivate.Inode.{Inode, FileKind, InodeAttributes, file_attr}
use cultivate.Mount.{DirectoryDescriptor}
use cultivate.Fs.{Fs, Request, set_inode}
use cultivate.Fs.Create.{mkdir, own}
use cultivate.Fs.Valid.{IsValid}
use cultivate.Fs.Names.{allocated, view, observe, make_directory}
use cultivate.Fs.Names.Calls.{
  then_ok, then_err, get_inode-none, Meets, Meets-IsValid, require_absent-Meets, entry-Meets,
}
use cultivate.Fs.Names.States.{add_entry_panic, touched, stamped, Born, create_new_node-Born}
use cultivate.Fs.Names.Parents.{enter_parent-stamped, view-enter, view-own}
use cultivate.Fs.Names.Filling.{fill_directory_lem, third_shown}

module _ (now : ℕ → SystemTime) (req : Request) (parent : Inode) (name : Bytes) (mode : ℕ) (s : Fs)
    (v : IsValid s) where
  mkdir_present :
      {a : InodeAttributes}
      → Meets parent name s (some a)
      → observe (mkdir now req parent name mode s) ≡ make_directory parent name (view s)
  unfolding mkdir
  mkdir_present {a} m =
      ap observe (then_err _ _ _ (require_absent-Meets parent name s _ m))
      ∙ rw (entry-Meets parent name s m) refl

  mkdir_orphan :
      Meets parent name s none
      → s.mount.nodes parent ≡ none
      → observe (mkdir now req parent name mode s) ≡ make_directory parent name (view s)
  unfolding mkdir view
  mkdir_orphan m gone =
      ap observe (
        then_ok _ _ _ (require_absent-Meets parent name s _ m)
        ∙ then_err _ _ _ (get_inode-none parent s gone))
      ∙ rw (entry-Meets parent name s m, gone) refl

  -- The new inode takes the next number, before its entry is made.
  new_node_shown :
      (a n : InodeAttributes) (t : Fs)
      → s.mount.nodes parent ≡ some a
      → Born now FileKind.directory (stamped now a s) n t
      → view (set_inode (own req (touched now a s) n) t).1 ≡ allocated FileKind.directory (view s)
  new_node_shown a n t here b =
      view-own now req (touched now a s) n FileKind.directory (stamped now a s) t b
      ∙ ap (λ x. allocated FileKind.directory x) (view-enter now parent a s v here)

  mkdir_plain :
      (a : InodeAttributes)
      → Meets parent name s none
      → s.mount.nodes parent ≡ some a
      → s.mount.directories parent ≡ none
      → observe (mkdir now req parent name mode s) ≡ make_directory parent name (view s)
  unfolding mkdir view stamped set_inode
  mkdir_plain a m here bare =
      let (n, t, b) = create_new_node-Born now FileKind.directory (stamped now a s) in
      ap observe (
        then_ok _ _ _ (require_absent-Meets parent name s _ m)
        ∙ enter_parent-stamped now req parent a _ s v here
        ∙ then_ok _ _ _ b.run
        ∙ then_ok _ _ _ refl
        ∙ add_entry_panic parent name _ _ _ (ap (λ d. d parent) b.directories ∙ bare))
      ∙ ap (λ x. (panic, x)) (new_node_shown a n t here b)
      ∙ rw (entry-Meets parent name s m, here, bare) refl

  mkdir_made :
      (a : InodeAttributes) (es : DirectoryDescriptor)
      → Meets parent name s none
      → s.mount.nodes parent ≡ some a
      → s.mount.directories parent ≡ some es
      → observe (mkdir now req parent name mode s) ≡ make_directory parent name (view s)
  unfolding mkdir view stamped set_inode own file_attr
  mkdir_made a es m here listed =
      let (n, t, b) = create_new_node-Born now FileKind.directory (stamped now a s) in
      let number : n.inode ≡ s.mount.next_inode = b.number in
      let apart : nat_eq n.inode parent ≡ false = ground (arith, v.fresh parent a here, number) in
      ap observe (
        then_ok _ _ _ (require_absent-Meets parent name s _ m)
        ∙ enter_parent-stamped now req parent a _ s v here
        ∙ then_ok _ _ _ b.run
        ∙ then_ok _ _ _ refl
        ∙ fill_directory_lem parent name es _ (own req (touched now a s) n) b.kind_of apart
            (ap (λ d. d parent) b.directories ∙ listed))
      ∙ third_shown parent name es _ (own req (touched now a s) n) (view s) b.kind_of number apart
          (new_node_shown a n t here b)
      ∙ rw (entry-Meets parent name s m, here, listed) refl

  mkdir_absent :
      Meets parent name s none
      → observe (mkdir now req parent name mode s) ≡ make_directory parent name (view s)
  mkdir_absent m = elim (Option-cases (s.mount.nodes parent)) [
    | inl gone ↦ mkdir_orphan m gone
    | inr (a, here) ↦ elim (Option-cases (s.mount.directories parent)) [
      | inl bare ↦ mkdir_plain a m here bare
      | inr (es, listed) ↦ mkdir_made a es m here listed
    ]
  ]

  mkdir_at :
      (o : Option InodeAttributes)
      → Meets parent name s o
      → observe (mkdir now req parent name mode s) ≡ make_directory parent name (view s)
  mkdir_at none m = mkdir_absent m
  mkdir_at (some a) m = mkdir_present m

  -- In a valid state `mkdir` replies what `make_directory` does on the tree of names that the state
  -- shows, and leaves a state that shows the tree that it leaves: with EEXIST where the name is taken,
  -- with ENOENT where there is no parent, with a panic where the parent is not a directory.
  pub mkdir-make_directory :
      observe (mkdir now req parent name mode s) ≡ make_directory parent name (view s)
  mkdir-make_directory = let (o, m) = Meets-IsValid parent name s v in mkdir_at o m
