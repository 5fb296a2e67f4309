-- ===== src/Fs/Valid/Start.antt =====
-- fs.rs: the state that the FUSE library's call of `init` leaves.
use cultivate.Common.{
  Option, nat_key, Bytes, ℕ, suc, ◌≡◌, refl, some, [], nat_eq, nat_eq_iff, ok, ◌>>=◌, arith,
  Bool-cases, inl, inr, bytes_eq,
}
use mathlib.Core.Path.{subst, subst₂, sym, ap, ◌∙◌}
use mathlib.Core.Option.{some-injective, none-ne-some}
use cultivate.HashMap
use cultivate.BTreeMap
use cultivate.Object.{empty_tree, ObjectId}
use cultivate.Store.{Store, get_tree}
use cultivate.Inode.Clock.{SystemTime}
use cultivate.Inode.{Inode, InodeAttributes, FileKind, new_attributes}
use cultivate.Mount
use cultivate.Mount.{Mount}
use cultivate.Mount.Insert.{set_root_tree, insert_tree, insert_entries, dot}
use cultivate.Fs.{Fs, new, get_inode, on_mount}
use cultivate.Fs.Listing.{init}
use cultivate.Fs.Valid.{Has, IsValid, Known}

-- Looking something up in a map with one key.
only-key :
    {A : Type 0} (k i : Inode) (a c : A)
    → HashMap.insert k a HashMap.empty i ≡ some c
    → (i ≡ k) × (a ≡ c)
only-key k i a c h = elim (Bool-cases (nat_eq k i)) [
  | inl same ↦ (sym ((nat_eq_iff k i).0 same), ground arith)
  | inr other ↦ ground arith
]

-- Its only name is ".".
dot_entry :
    (i : Inode) (kind : FileKind) (name : Bytes)
    → BTreeMap.get {V = Inode × FileKind} name (BTreeMap.insert dot (1, FileKind.directory) [])
      ≡ some (i, kind)
    → (1 ≡ i) × (FileKind.directory ≡ kind)
unfolding BTreeMap.get BTreeMap.insert
dot_entry i kind name h = elim (Bool-cases (bytes_eq dot name)) [
  | inl same ↦
      let e = some-injective _ _ (sym (rw same refl) ∙ h) in (ap (λ p. p.0) e, ap (λ p. p.1) e)
  | inr other ↦ absurd (none-ne-some _ (sym (rw other refl) ∙ h))
]

-- A state with one inode, a directory that holds itself as ".".
one_inode-IsValid :
    (a : InodeAttributes) (s : Fs)
    → a.inode ≡ 1
    → a.kind ≡ FileKind.directory
    → a.mode ≡ 0o777
    → s.mount.nodes ≡ HashMap.insert 1 a HashMap.empty
    → s.mount.directories
      ≡ HashMap.insert 1 (BTreeMap.insert dot (1, FileKind.directory) []) HashMap.empty
    → s.mount.next_inode ≡ 2
    → IsValid s
one_inode-IsValid a s number kind mode nodes directories counter =
    let here : Has s 1 FileKind.directory = (a, rw nodes refl, kind) in
    let only : (i : Inode) (c : InodeAttributes) → s.mount.nodes i ≡ some c → (i ≡ 1) × (a ≡ c) =
      λ i c h. only-key 1 i a c (sym (ap (λ m. m i) nodes) ∙ h) in
    record {
      keyed = λ i c h.
          let (e, f) = only i c h in ap (λ (x : InodeAttributes). x.inode) (sym f) ∙ number ∙ sym e;
      fresh = λ i c h. let (e, f) = only i c h in omega (arith, e, counter);
      known = λ i c h.
          let (e, f) = only i c h in
          subst (Known s) f (record {
            has = subst₂ (λ n k. Has s n k) (sym number) (sym kind) here;
            mode = mode;
            backed = λ h k. cc;
            linked = λ h k. cc;
          });
      directory = λ i es h.
          let (e, f) = only-key 1 i _ es (sym (ap (λ m. m i) directories) ∙ h) in
          subst (λ n. Has s n FileKind.directory) (sym e) here;
      entries = λ i es h name j k g.
          let (e, f) = only-key 1 i _ es (sym (ap (λ m. m i) directories) ∙ h) in
          let (n, m) = dot_entry j k name (ap (λ d. BTreeMap.get name d) f ∙ g) in
          subst₂ (λ n k. Has s n k) n m here;
    }

module _ (now : ℕ → SystemTime) where
  -- `init` of a new file system over a store that holds the empty tree under its id replies without an
  -- error or a panic, and leaves a valid state.
  pub init-IsValid :
      (store : Store) (readings fuel : ℕ)
      → get_tree store.empty_tree_id store ≡ some empty_tree
      → (t : Fs) × (init now (suc fuel) (new store (Mount.new store readings)) ≡ (ok tt, t))
        × IsValid t
  unfolding init new Mount.new get_inode on_mount Mount.get_inode ◌>>=◌ set_root_tree insert_tree
      insert_entries get_tree Mount.allocate_inode Mount.set_inode Mount.set_directory_content
      Mount.new_node Mount.time_now new_attributes
  init-IsValid store readings fuel found =
      rw found (_, refl, one_inode-IsValid _ _ refl refl refl refl refl refl)

-- A mount that no request has reached yet.
abbrev pub untouched : Option Bytes → Option Bytes → ObjectId → ℕ → Mount
untouched op_id workspace_id tree_id readings = record {
  nodes = HashMap.empty;
  directories = HashMap.empty;
  next_inode = 1;
  op_id = op_id;
  workspace_id = workspace_id;
  tree_id = tree_id;
  readings = readings;
}

-- `init` on such a mount replies, leaves a valid state, and leaves the store as it was.
pub init-untouched :
    (now : ℕ → SystemTime) (store : Store) (op_id workspace_id : Option Bytes) (tree_id : ObjectId)
    (readings fuel fh : ℕ)
    → get_tree store.empty_tree_id store ≡ some empty_tree
    → (t : Fs) × (init now (suc fuel) (record {
      store = store;
      mount = untouched op_id workspace_id tree_id readings;
      next_file_handle = fh;
    })
        ≡ (ok tt, t))
      × IsValid t
      × (t.store ≡ store)
unfolding init get_inode on_mount Mount.get_inode ◌>>=◌ set_root_tree insert_tree insert_entries
    get_tree Mount.allocate_inode Mount.set_inode Mount.set_directory_content Mount.new_node
    Mount.time_now new_attributes
init-untouched now store op_id workspace_id tree_id readings fuel fh found =
    rw found (_, refl, one_inode-IsValid _ _ refl refl refl refl refl refl, refl)
