-- ===== src/Fs/Names/Linking.antt =====
-- fs.rs: `symlink`, seen through the tree of names.
use cultivate.Common.{
  is_utf8, Bool, length, ℕ, ◌≡◌, ◌∙◌, sym, refl, ap, true, false, Option, none, some, Bytes,
  bytes_key, nat_key, nat_eq, nat_eq_iff, Outcome, ok, err, panic, ◌>>◌, arith, Option-cases, inl,
  inr,
}
use cultivate.Errno.{Errno, eexist}
use cultivate.Inode.Clock.{SystemTime}
use cultivate.Inode.{Inode, FileKind, FileType, InodeAttributes, set_size}
use cultivate.Mount.{DirectoryDescriptor}
use cultivate.Fs.{Fs, Request, set_directory_content}
use cultivate.Fs.Node.{insert_link}
use cultivate.Fs.Create.{symlink, own}
use cultivate.Fs.Valid.{IsValid}
use cultivate.Fs.Names.{Namespace, named, allocated, view, observe, entry, make_link, linked, Shown}
use cultivate.Fs.Names.Calls.{
  then_ok, then_err, then_panic, get_inode-none, Meets, shown_entry, Meets-IsValid, entry-Meets,
}
use cultivate.Fs.Names.States.{
  relinked, names_of, names_of-insert, view-relinked_of, touched, stamped, Born,
  create_new_node-Born,
}
use cultivate.Fs.Names.Parents.{enter_parent-stamped, view-enter, stamped-IsValid, Born-IsValid}
use cultivate.Fs.Valid.Nodes.{Room}
use cultivate.ContentHash.{Blake3}
use cultivate.Fs.Names.Inserting.{
  is_some-link_hash, link_hash, is_some, store_link, stored_reply, store_link_shown,
  insert_link_taken, insert_link_plain, insert_link_made,
}

module _ (b : Blake3) (now : ℕ → SystemTime) (req : Request) (parent : Inode) (name target : Bytes)
    (s : Fs) (v : IsValid s) (room : Room s) where
  abbrev spec : Outcome Errno Shown × Namespace
  spec = make_link (is_some (link_hash b target)) parent name (view s)

  link_orphan :
      s.mount.nodes parent ≡ none → observe (symlink b now req parent name target s) ≡ spec
  unfolding symlink view
  link_orphan gone = ap observe (then_err _ _ _ (get_inode-none parent s gone)) ∙ rw gone refl

  -- The state with the new node.
  module _ (a : InodeAttributes) (here : s.mount.nodes parent ≡ some a) (n : InodeAttributes)
      (t : Fs) (made : Born now FileKind.symlink (stamped now a s) n t) where
    abbrev pub attrs : InodeAttributes
    attrs = set_size (length target) (own req (touched now a s) n)

    pub valid : IsValid t
    unfolding stamped
    valid =
        Born-IsValid now FileKind.symlink (stamped now a s) n t
          (stamped-IsValid now parent a s v here) room made

    pub shows : view t ≡ allocated FileKind.symlink (view s)
    shows = made.shows ∙ ap (λ x. allocated FileKind.symlink x) (view-enter now parent a s v here)

    pub parent_there : t.mount.nodes parent ≡ some (touched now a s)
    unfolding stamped
    parent_there =
        made.older parent (ground (arith, v.fresh parent a here))
        ∙ rw ((nat_eq_iff a.inode parent).1 (v.keyed parent a here)) refl

    pub run_up_to_link :
        symlink b now req parent name target s
        ≡ (do
          insert_link now req parent name attrs.inode FileKind.symlink
          store_link b target attrs)
            t
    unfolding symlink
    run_up_to_link = enter_parent-stamped now req parent a _ s v here ∙ then_ok _ _ _ made.run

    entry_before :
        {o : Option InodeAttributes}
        → Meets parent name t o
        → entry (view s) parent name ≡ shown_entry parent name t o
    entry_before m =
        ap (λ (x : Namespace). entry x parent name) (sym shows) ∙ entry-Meets parent name t m

    link_taken :
        {x : InodeAttributes}
        → Meets parent name t (some x)
        → observe (symlink b now req parent name target s) ≡ spec
    unfolding view
    link_taken m =
        ap observe
          (run_up_to_link ∙ then_err _ _ _ (insert_link_taken now req parent name _ _ t valid m))
        ∙ ap (λ x. (err eexist, x)) shows
        ∙ rw (entry_before m, here) refl

    link_plain :
        Meets parent name t none
        → s.mount.directories parent ≡ none
        → observe (symlink b now req parent name target s) ≡ spec
    unfolding view stamped
    link_plain m bare =
        ap observe (
          run_up_to_link
          ∙ then_panic _ _ _ (
              insert_link_plain now req parent name _ _ t valid _ m parent_there
                (ap (λ d. d parent) made.directories ∙ bare)))
        ∙ ap (λ x. (panic, x)) (view-enter now parent _ t valid parent_there ∙ shows)
        ∙ rw (entry_before m, here, bare) refl

    -- the parent is not the new node
    apart : nat_eq a.inode n.inode ≡ false
    unfolding stamped
    apart =
        let number : n.inode ≡ s.mount.next_inode = made.number in
        ground (arith, v.fresh parent a here, v.keyed parent a here, number)

    outcome_shown :
        (es : DirectoryDescriptor) (storable : Bool)
        → Meets parent name t none
        → s.mount.directories parent ≡ some es
        → ◌≡◌ {A = Outcome Errno Shown × Namespace}
            (
              stored_reply b target attrs storable,
              linked FileKind.symlink parent name (names_of es) (view s),
            )
            (make_link storable parent name (view s))
    unfolding view own stamped
    outcome_shown es true m listed =
        ap
          (λ i.
            (ok (i, FileType.symlink), linked FileKind.symlink parent name (names_of es) (view s)))
          made.number
        ∙ rw (entry_before m, here, listed) refl
    outcome_shown es false m listed = rw (entry_before m, here, listed) refl

    link_entered :
        (es : DirectoryDescriptor)
        → Meets parent name t none
        → s.mount.directories parent ≡ some es
        → observe (symlink b now req parent name target s) ≡ spec
    unfolding stamped own relinked set_directory_content touched view
    link_entered es m listed =
        let x = stamped now (touched now a s) t in
        ap observe (
          run_up_to_link
          ∙ then_ok _ _ _ (
              insert_link_made now req parent name _ _ t valid _ es m parent_there
                (ap (λ d. d parent) made.directories ∙ listed)))
        ∙ store_link_shown b target attrs n _ (rw apart made.here) refl made.kind_of
        ∙ ap (λ y. (stored_reply b target attrs (is_some (link_hash b target)), y))
            (view-relinked_of parent _ x
              (named name (s.mount.next_inode, FileKind.symlink) (names_of es))
              (allocated FileKind.symlink (view s))
              (names_of-insert name (n.inode, FileKind.symlink) es
                ∙ ap (λ i. named name (i, FileKind.symlink) (names_of es)) made.number)
              (view-enter now parent _ t valid parent_there ∙ shows))
        ∙ outcome_shown es (is_some (link_hash b target)) m listed

    link_absent : Meets parent name t none → observe (symlink b now req parent name target s) ≡ spec
    link_absent m = elim (Option-cases (s.mount.directories parent)) [
      | inl bare ↦ link_plain m bare
      | inr (es, listed) ↦ link_entered es m listed
    ]

    link_at :
        (o : Option InodeAttributes)
        → Meets parent name t o
        → observe (symlink b now req parent name target s) ≡ spec
    link_at none m = link_absent m
    link_at (some x) m = link_taken m

    link_parent : observe (symlink b now req parent name target s) ≡ spec
    link_parent = let (o, m) = Meets-IsValid parent name t valid in link_at o m

  link_shown : observe (symlink b now req parent name target s) ≡ spec
  link_shown = elim (Option-cases (s.mount.nodes parent)) [
    | inl gone ↦ link_orphan gone
    | inr (a, here) ↦
        let (n, t, made) = create_new_node-Born now FileKind.symlink (stamped now a s) in
        link_parent a here n t made
  ]

  -- In a valid state with an inode number left, `symlink` replies what `make_link` does on the tree of
  -- names that the state shows, and leaves a state that shows the tree that it leaves: with ENOENT where
  -- there is no parent; with EEXIST where the name is taken, the number being spent; with a panic where
  -- the parent is not a directory, or, after the entry was made, where the target is not UTF-8.
  pub symlink-make_link :
      observe (symlink b now req parent name target s)
      ≡ make_link (is_utf8 target) parent name (view s)
  symlink-make_link =
      link_shown ∙ ap (λ q. make_link q parent name (view s)) (is_some-link_hash b target)
