-- ===== src/Fs/Names/States.antt =====
-- fs.rs: the states that the calls of the creating handlers leave, and what they show.
use cultivate.Common.{
  ℕ, ◌+◌, ◌%◌, ◌^◌, ◌≡◌, ◌∙◌, refl, ap, false, none, some, Bytes, bytes_key, nat_key, nat_eq,
  nat_eq_iff, ok, panic, ◌>>=◌, ◌>>◌, ◌>>=?◌, Bool-cases, inl, inr,
}
use mathlib.Core.Path.{fun_ext, subst, ap₂}
use cultivate.HashMap
use cultivate.HashMap.{HashMap}
use cultivate.BTreeMap
use cultivate.BTreeMap.{get-insert}
use cultivate.Inode.Clock.{SystemTime, time_from_system_time}
use cultivate.Inode.{
  Inode, FileKind, InodeAttributes, new_attributes, update_last_modified,
  update_last_metadata_changed,
}
use cultivate.Mount
use cultivate.Mount.{DirectoryDescriptor}
use cultivate.Fs.{Fs, F, on_mount, get_directory_content, set_inode, set_directory_content}
use cultivate.Fs.Node.{touch, unwrap_directory}
use cultivate.Fs.Names.{Namespace, Names, named, allocated, view}

-- Writing an inode that is there with its kind changes nothing that is shown.
pub view-set_inode :
    (a c : InodeAttributes) (s : Fs)
    → s.mount.nodes a.inode ≡ some c
    → c.kind ≡ a.kind
    → view (set_inode a s).1 ≡ view s
unfolding view set_inode
view-set_inode a c s here kind =
    ap (λ (ks : HashMap Inode FileKind). record (view s) { kinds = ks })
      (fun_ext λ i. elim (Bool-cases (nat_eq a.inode i)) [
        | inl same ↦
            let there : s.mount.nodes i ≡ some c =
              subst (λ j. s.mount.nodes j ≡ some c) ((nat_eq_iff a.inode i).0 same) here in
            rw (same, there, kind) refl
        | inr other ↦ rw other refl
      ])

-- Putting a name into a directory that is there.
unfoldable pub relinked : Inode → DirectoryDescriptor → Fs → Fs
unfolding set_directory_content
relinked d es s = (set_directory_content d es s).1

pub add_entry-relinked :
    {B : Type 0} (d : Inode) (name : Bytes) (v : Inode × FileKind) (es : DirectoryDescriptor)
    (k : F B) (s : Fs)
    → s.mount.directories d ≡ some es
    → (do entries ← unwrap_directory d; set_directory_content d (BTreeMap.insert name v entries); k)
        s
      ≡ k (relinked d (BTreeMap.insert name v es) s)
unfolding unwrap_directory get_directory_content on_mount Mount.get_directory_content ◌>>=◌ relinked
add_entry-relinked d name v es k s listed = rw listed refl

pub add_entry_panic :
    {B : Type 0} (d : Inode) (name : Bytes) (v : Inode × FileKind) (k : F B) (s : Fs)
    → s.mount.directories d ≡ none
    → (do entries ← unwrap_directory d; set_directory_content d (BTreeMap.insert name v entries); k)
        s
      ≡ (panic, s)
unfolding unwrap_directory get_directory_content on_mount Mount.get_directory_content ◌>>=◌
add_entry_panic d name v k s bare = rw bare refl

-- The same, where nothing follows.
pub last_entry-relinked :
    (d : Inode) (name : Bytes) (v : Inode × FileKind) (es : DirectoryDescriptor) (s : Fs)
    → s.mount.directories d ≡ some es
    → (do entries ← unwrap_directory d; set_directory_content d (BTreeMap.insert name v entries)) s
      ≡ (ok tt, relinked d (BTreeMap.insert name v es) s)
unfolding unwrap_directory get_directory_content on_mount Mount.get_directory_content
    Mount.set_directory_content set_directory_content ◌>>=◌ relinked
last_entry-relinked d name v es s listed = rw listed refl

pub last_entry_panic :
    (d : Inode) (name : Bytes) (v : Inode × FileKind) (s : Fs)
    → s.mount.directories d ≡ none
    → (do entries ← unwrap_directory d; set_directory_content d (BTreeMap.insert name v entries)) s
      ≡ (panic, s)
unfolding unwrap_directory get_directory_content on_mount Mount.get_directory_content ◌>>=◌
last_entry_panic d name v s bare = rw bare refl

-- What a list of entries shows.
abbrev pub names_of : DirectoryDescriptor → Names
names_of es name = BTreeMap.get name es

pub names_of-insert :
    (name : Bytes) (v : Inode × FileKind) (es : DirectoryDescriptor)
    → names_of (BTreeMap.insert name v es) ≡ named name v (names_of es)
names_of-insert name v es = fun_ext λ other. get-insert name other v es

pub view-relinked :
    (d : Inode) (es : DirectoryDescriptor) (s : Fs)
    → view (relinked d es s)
      ≡ record (view s) { names = HashMap.insert d (names_of es) (view s).names }
unfolding view relinked set_directory_content
view-relinked d es s =
    ap (λ (ns : HashMap Inode Names). record (view s) { names = ns })
      (fun_ext
        λ i. elim (Bool-cases (nat_eq d i)) [ inl same ↦ rw same refl | inr other ↦ rw other refl ])

-- The same, in terms of what the state before and the entries show.
pub view-relinked_of :
    (d : Inode) (es : DirectoryDescriptor) (s : Fs) (c : Names) (n : Namespace)
    → names_of es ≡ c
    → view s ≡ n
    → view (relinked d es s) ≡ record n { names = HashMap.insert d c n.names }
view-relinked_of d es s c n e f =
    view-relinked d es s
    ∙ ap₂ (λ (x : Namespace) (y : Names). record x { names = HashMap.insert d y x.names }) f e

module _ (now : ℕ → SystemTime) where
  unfoldable pub touched : InodeAttributes → Fs → InodeAttributes
  touched a s =
      update_last_metadata_changed (time_from_system_time (now (s.mount.readings + 1)))
        (update_last_modified (time_from_system_time (now s.mount.readings)) a)

  unfoldable pub stamped : InodeAttributes → Fs → Fs
  stamped a s = record s {
    mount = record s.mount {
      nodes = HashMap.insert a.inode (touched a s) s.mount.nodes;
      readings = s.mount.readings + 1 + 1;
    };
  }

  pub touch-stamped :
      (a : InodeAttributes) (s : Fs) → touch now a s ≡ (ok (touched a s), stamped a s)
  unfolding touch on_mount Mount.time_now set_inode Mount.set_inode ◌>>=◌ touched stamped
  touch-stamped a s = refl

  pub view-stamped :
      (a c : InodeAttributes) (s : Fs)
      → s.mount.nodes a.inode ≡ some c
      → c.kind ≡ a.kind
      → view (stamped a s) ≡ view s
  unfolding view stamped touched
  view-stamped a c s here kind =
      ap (λ (ks : HashMap Inode FileKind). record (view s) { kinds = ks })
        (fun_ext λ i. elim (Bool-cases (nat_eq a.inode i)) [
          | inl same ↦
              let there : s.mount.nodes i ≡ some c =
                subst (λ j. s.mount.nodes j ≡ some c) ((nat_eq_iff a.inode i).0 same) here in
              rw (same, there, kind) refl
          | inr other ↦ rw other refl
        ])

  -- A new node, and the state after it.
  pub record Born (kind : FileKind) (s : Fs) (a : InodeAttributes) (t : Fs) : Type 0 where
    pub run : on_mount (Mount.create_new_node now kind) s ≡ (ok a, t)
    pub number : a.inode ≡ s.mount.next_inode
    pub kind_of : a.kind ≡ kind
    pub here : t.mount.nodes a.inode ≡ some a
    pub older :
        (i : Inode) → nat_eq s.mount.next_inode i ≡ false → t.mount.nodes i ≡ s.mount.nodes i
    pub directories : t.mount.directories ≡ s.mount.directories
    pub shows : view t ≡ allocated kind (view s)

  -- The numbers and the kinds with one new node.
  kinds-insert :
      (i : Inode) (a : InodeAttributes) (m : HashMap Inode InodeAttributes)
      → ◌≡◌ {A = HashMap Inode FileKind}
          (λ j. HashMap.insert i a m j >>=? λ c. some c.kind)
          (HashMap.insert i a.kind (λ j. m j >>=? λ c. some c.kind))
  kinds-insert i a m =
      fun_ext
        λ j. elim (Bool-cases (nat_eq i j)) [ inl same ↦ rw same refl | inr other ↦ rw other refl ]

  abbrev after : Fs → InodeAttributes → ℕ → Fs
  after s a readings = record s {
    mount = record s.mount {
      nodes = HashMap.insert s.mount.next_inode a s.mount.nodes;
      next_inode = (s.mount.next_inode + 1) % 2 ^ 64;
      readings = readings;
    };
  }

  born :
      (s : Fs) (a : InodeAttributes) (readings : ℕ)
      → a.inode ≡ s.mount.next_inode
      → on_mount (Mount.create_new_node now a.kind) s ≡ (ok a, after s a readings)
      → Born a.kind s a (after s a readings)
  unfolding view
  born s a readings number run = record {
    run = run;
    number = number;
    kind_of = refl;
    here = rw (number, (nat_eq_iff s.mount.next_inode s.mount.next_inode).1 refl) refl;
    older = λ i other. rw other refl;
    directories = refl;
    shows =
        ap (λ (ks : HashMap Inode FileKind). record (allocated a.kind (view s)) { kinds = ks })
          (kinds-insert s.mount.next_inode a s.mount.nodes);
  }

  pub create_new_node-Born :
      (kind : FileKind) (s : Fs) → (a : InodeAttributes) × (t : Fs) × Born kind s a t
  unfolding on_mount Mount.create_new_node Mount.allocate_inode Mount.new_node Mount.time_now
      Mount.set_inode new_attributes ◌>>=◌
  create_new_node-Born FileKind.file s = (_, _, born s _ _ refl refl)
  create_new_node-Born FileKind.directory s = (_, _, born s _ _ refl refl)
  create_new_node-Born FileKind.symlink s = (_, _, born s _ _ refl refl)
