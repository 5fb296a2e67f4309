-- ===== src/Fs/Names/Nodes.antt =====
-- fs.rs: `mknod`, seen through the tree of names.
use cultivate.Common.{
  pure, unwrap, assert, not, ℕ, ◌≡◌, ◌∙◌, refl, ap, true, Option, none, some, Bytes, bytes_key,
  nat_key, Outcome, panic, ◌>>=◌, ◌>>◌, Bool-cases, Option-cases, inl, inr,
}
use mathlib.Core.Path.{ap₂}
use cultivate.BTreeMap
use cultivate.Errno.{Errno}
use cultivate.Inode.Clock.{SystemTime}
use cultivate.Inode.{Inode, FileKind, InodeAttributes, kind_eq, FileAttr, file_attr, file_type}
use cultivate.Mount
use cultivate.Mount.{DirectoryDescriptor}
use cultivate.Fs.{Fs, F, Request, on_mount, get_inode, set_inode, set_directory_content}
use cultivate.Fs.Node.{as_file_kind, require_absent, touch, unwrap_directory}
use cultivate.Fs.Create.{mknod, own, masked, file_type_known}
use cultivate.Fs.Valid.{IsValid}
use cultivate.Fs.Names.{Namespace, allocated, view, observe, make_node, shown, Shown}
use cultivate.Fs.Names.Calls.{
  then_ok, then_err, then_panic, get_inode-some, get_inode-none, Meets, Meets-IsValid,
  require_absent-Meets, entry-Meets,
}
use cultivate.Fs.Names.States.{
  relinked, add_entry-relinked, add_entry_panic, touched, stamped, touch-stamped, Born,
  create_new_node-Born,
}
use cultivate.Fs.Names.Parents.{view-enter, view-own, entered_shown}

-- A parent with new times, whoever asks.
enter_anyone :
    {B : Type 0} (now : ℕ → SystemTime) (parent : Inode) (a : InodeAttributes)
    (k : InodeAttributes → F B) (s : Fs)
    → s.mount.nodes parent ≡ some a
    → (do b ← get_inode parent; c ← touch now b; k c) s ≡ k (touched now a s) (stamped now a s)
enter_anyone now parent a k s here =
    then_ok _ _ _ (get_inode-some parent a s here) ∙ then_ok _ _ _ (touch-stamped now a s)

-- The end of `mknod`: it panics at a directory.
reply_node :
    (kind : FileKind) (attrs : InodeAttributes) (s : Fs)
    → attrs.kind ≡ kind
    → observe ((do assert (not (kind_eq kind FileKind.directory)); pure (file_attr attrs)) s)
      ≡ (shown attrs.inode kind, view s)
unfolding ◌>>=◌ file_attr file_type
reply_node FileKind.file attrs s e = rw e refl
reply_node FileKind.directory attrs s e = refl
reply_node FileKind.symlink attrs s e = rw e refl

module _ (now : ℕ → SystemTime) (req : Request) (parent : Inode) (name : Bytes) (mode : ℕ) (s : Fs)
    (v : IsValid s) where
  -- `mknod` after the test of the mode
  abbrev after_test : F FileAttr
  after_test = do
    require_absent parent name
    parent_attrs ← get_inode parent
    parent_attrs' ← touch now parent_attrs
    kind ← unwrap (as_file_kind (masked req mode))
    node ← on_mount (Mount.create_new_node now kind)
    let attrs = own req parent_attrs' node
    set_inode attrs
    entries ← unwrap_directory parent
    set_directory_content parent (BTreeMap.insert name (attrs.inode, attrs.kind) entries)
    kind' ← unwrap (as_file_kind (masked req mode))
    assert (not (kind_eq kind' FileKind.directory))
    pure (file_attr attrs)

  abbrev spec : Option FileKind → Outcome Errno Shown × Namespace
  spec kind = make_node true kind parent name (view s)

  node_present :
      {a : InodeAttributes}
      → Meets parent name s (some a)
      → observe (after_test s) ≡ spec (as_file_kind (masked req mode))
  node_present m =
      ap observe (then_err _ _ _ (require_absent-Meets parent name s _ m))
      ∙ rw (entry-Meets parent name s m) refl

  node_orphan :
      Meets parent name s none
      → s.mount.nodes parent ≡ none
      → observe (after_test s) ≡ spec (as_file_kind (masked req mode))
  unfolding view
  node_orphan m gone =
      ap observe (
        then_ok _ _ _ (require_absent-Meets parent name s _ m)
        ∙ then_err _ _ _ (get_inode-none parent s gone))
      ∙ rw (entry-Meets parent name s m, gone) refl

  node_unknown :
      (a : InodeAttributes)
      → Meets parent name s none
      → s.mount.nodes parent ≡ some a
      → as_file_kind (masked req mode) ≡ none
      → observe (after_test s) ≡ spec (as_file_kind (masked req mode))
  unfolding view
  node_unknown a m here unknown =
      ap observe (
        then_ok _ _ _ (require_absent-Meets parent name s _ m)
        ∙ enter_anyone now parent a _ s here
        ∙ then_panic _ _ _ (ap (λ o. unwrap o (stamped now a s)) unknown))
      ∙ ap (λ x. (panic, x)) (view-enter now parent a s v here)
      ∙ rw (entry-Meets parent name s m, unknown, here) refl

  node_shown :
      (a n : InodeAttributes) (kind : FileKind) (t : Fs)
      → s.mount.nodes parent ≡ some a
      → Born now kind (stamped now a s) n t
      → view (set_inode (own req (touched now a s) n) t).1 ≡ allocated kind (view s)
  node_shown a n kind t here b =
      view-own now req (touched now a s) n kind (stamped now a s) t b
      ∙ ap (λ x. allocated kind x) (view-enter now parent a s v here)

  -- up to the entry in the parent
  node_entered :
      (a : InodeAttributes) (kind : FileKind) (n : InodeAttributes) (t : Fs)
      → Meets parent name s none
      → s.mount.nodes parent ≡ some a
      → as_file_kind (masked req mode) ≡ some kind
      → Born now kind (stamped now a s) n t
      → after_test s
        ≡ (do
          entries ← unwrap_directory parent
          set_directory_content parent (
              BTreeMap.insert name
                ((own req (touched now a s) n).inode, (own req (touched now a s) n).kind)
                entries)
          kind' ← unwrap (as_file_kind (masked req mode))
          assert (not (kind_eq kind' FileKind.directory))
          pure (file_attr (own req (touched now a s) n)))
            (set_inode (own req (touched now a s) n) t).1
  unfolding set_inode
  node_entered a kind n t m here e b =
      then_ok _ _ _ (require_absent-Meets parent name s _ m)
      ∙ enter_anyone now parent a _ s here
      ∙ then_ok _ _ _ (ap (λ o. unwrap o (stamped now a s)) e)
      ∙ then_ok _ _ _ b.run
      ∙ then_ok _ _ _ refl

  node_plain :
      (a : InodeAttributes) (kind : FileKind)
      → Meets parent name s none
      → s.mount.nodes parent ≡ some a
      → s.mount.directories parent ≡ none
      → as_file_kind (masked req mode) ≡ some kind
      → observe (after_test s) ≡ spec (as_file_kind (masked req mode))
  unfolding view stamped set_inode
  node_plain a kind m here bare e =
      let (n, t, b) = create_new_node-Born now kind (stamped now a s) in
      ap observe (
        node_entered a kind n t m here e b
        ∙ add_entry_panic parent name _ _ _ (ap (λ d. d parent) b.directories ∙ bare))
      ∙ ap (λ x. (panic, x)) (node_shown a n kind t here b)
      ∙ rw (entry-Meets parent name s m, e, here, bare) refl

  node_made_at :
      (a : InodeAttributes) (kind : FileKind) (es : DirectoryDescriptor)
      → Meets parent name s none
      → s.mount.nodes parent ≡ some a
      → s.mount.directories parent ≡ some es
      → as_file_kind (masked req mode) ≡ some kind
      → observe (after_test s) ≡ spec (as_file_kind (masked req mode))
  unfolding view stamped set_inode own
  node_made_at a kind es m here listed e =
      let (n, t, b) = create_new_node-Born now kind (stamped now a s) in
      let attrs = own req (touched now a s) n in
      let u = (set_inode attrs t).1 in
      let x = relinked parent (BTreeMap.insert name (n.inode, n.kind) es) u in
      ap observe (
        node_entered a kind n t m here e b
        ∙ add_entry-relinked parent name _ es _ _ (ap (λ d. d parent) b.directories ∙ listed)
        ∙ then_ok _ _ _ (ap (λ o. unwrap o x) e))
      ∙ reply_node kind attrs x b.kind_of
      ∙ ap₂ (λ i y. (shown i kind, y)) b.number
          (entered_shown parent name es kind n (view s) u b.number b.kind_of
            (node_shown a n kind t here b))
      ∙ rw (entry-Meets parent name s m, e, here, listed) refl

  node_at :
      (o : Option InodeAttributes)
      → Meets parent name s o
      → observe (after_test s) ≡ spec (as_file_kind (masked req mode))
  node_at (some a) m = node_present m
  node_at none m = elim (Option-cases (s.mount.nodes parent)) [
    | inl gone ↦ node_orphan m gone
    | inr (a, here) ↦ elim (Option-cases (as_file_kind (masked req mode))) [
      | inl unknown ↦ node_unknown a m here unknown
      | inr (kind, e) ↦ elim (Option-cases (s.mount.directories parent)) [
        | inl bare ↦ node_plain a kind m here bare e
        | inr (es, listed) ↦ node_made_at a kind es m here listed e
      ]
    ]
  ]

  -- In a valid state `mknod` replies what `make_node` does on the tree of names that the state shows,
  -- for what the mode says of the type, and leaves a state that shows the tree that it leaves: with
  -- ENOSYS for a type that is not supported, with EEXIST where the name is taken, with ENOENT where there
  -- is no parent, with a panic where the parent is not a directory or the new node is one.
  pub mknod-make_node :
      observe (mknod now req parent name mode s)
      ≡ make_node (file_type_known mode) (as_file_kind (masked req mode)) parent name (view s)
  unfolding mknod
  mknod-make_node = elim (Bool-cases (file_type_known mode)) [
    | inl known ↦
        let (o, m) = Meets-IsValid parent name s v in
        rw known (ap observe (then_ok _ _ _ refl) ∙ node_at o m)
    | inr unknown ↦ rw unknown (ap observe (then_err _ _ _ refl))
  ]
