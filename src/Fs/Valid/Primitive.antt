-- ===== src/Fs/Valid/Primitive.antt =====
-- fs.rs: validity where an inode or a directory is written.
use cultivate.Common.{
  ◌≡◌, refl, ap, true, some, Bytes, arith, Bool-cases, inl, inr, nat_eq, nat_eq_iff, nat_key,
  bytes_eq,
}
use mathlib.Core.Option.{some-injective}
use mathlib.Core.Path.{subst}
use cultivate.BTreeMap
use cultivate.BTreeMap.{get-insert, get-remove}
use cultivate.Inode.{Inode, FileKind, InodeAttributes}
use cultivate.Mount.{DirectoryDescriptor}
use cultivate.Fs.{Fs, set_inode, set_directory_content}
use cultivate.Fs.Valid.{Has, Known, EntriesKnown, IsValid, Since-Known, Since-EntriesKnown, Still}

-- Two inodes under one number are one, and have one kind.
one_kind :
    (s : Fs) (i j : Inode) (k l : FileKind)
    → nat_eq i j ≡ true
    → (a : InodeAttributes) → s.mount.nodes i ≡ some a
    → a.kind ≡ k
    → (b : InodeAttributes) → s.mount.nodes j ≡ some b
    → b.kind ≡ l
    → k ≡ l
one_kind s i j k l same a p q b p' q' =
    let e : i ≡ j = (nat_eq_iff i j).0 same in cc (ap s.mount.nodes e)

pub set_inode-Still : (a : InodeAttributes) (s : Fs) → Known s a → Still s (set_inode a s).1
unfolding set_inode
set_inode-Still a s k = record {
  since = record {
    kinds = λ i kind h. elim (Bool-cases (nat_eq a.inode i)) [
      | inl same ↦
          (a, rw same, one_kind s a.inode i a.kind kind same k.has.0 k.has.1 k.has.2 h.0 h.1 h.2)
      | inr other ↦ (h.0, rw other h.1, h.2)
    ];
    files = λ h f e. (f, e);
    symlinks = λ h l e. (l, e);
  };
  counter = refl;
}

pub set_inode-IsValid :
    (a : InodeAttributes) (s : Fs) → IsValid s → Known s a → IsValid (set_inode a s).1
unfolding set_inode
set_inode-IsValid a s v k =
    let still = set_inode-Still a s k in
    record {
      keyed = λ i c h. ground (arith, v.keyed i c);
      fresh = λ i c h. ground (arith, v.keyed i c, v.fresh i c, v.fresh a.inode k.has.0 k.has.1);
      known = λ i c h. elim (Bool-cases (nat_eq a.inode i)) [
        | inl same ↦
            subst (Known (set_inode a s).1) (some-injective _ _ (rw same at h))
              (Since-Known still.since k)
        | inr other ↦ Since-Known still.since (v.known i c (rw other at h))
      ];
      directory = λ i es h. still.since.kinds i FileKind.directory (v.directory i es h);
      entries = λ i es h. Since-EntriesKnown es still.since (v.entries i es h);
    }

pub set_directory_content-Still :
    (d : Inode) (es : DirectoryDescriptor) (s : Fs) → Still s (set_directory_content d es s).1
unfolding set_directory_content
set_directory_content-Still d es s = record {
  since = record { kinds = λ i kind h. h; files = λ h f e. (f, e); symlinks = λ h l e. (l, e) };
  counter = refl;
}

pub set_directory_content-IsValid :
    (d : Inode) (es : DirectoryDescriptor) (s : Fs)
    → IsValid s
    → Has s d FileKind.directory
    → EntriesKnown s es
    → IsValid (set_directory_content d es s).1
unfolding set_directory_content
set_directory_content-IsValid d es s v dir k =
    let still = set_directory_content-Still d es s in
    record {
      keyed = v.keyed;
      fresh = v.fresh;
      known = λ i a h. Since-Known still.since (v.known i a h);
      directory = λ i fs h. elim (Bool-cases (nat_eq d i)) [
        | inl same ↦ subst (λ j. Has s j FileKind.directory) ((nat_eq_iff d i).0 same) dir
        | inr other ↦ v.directory i fs (rw other at h)
      ];
      entries = λ i fs h. elim (Bool-cases (nat_eq d i)) [
        | inl same ↦ subst (EntriesKnown s) (some-injective _ _ (rw same at h)) k
        | inr other ↦ v.entries i fs (rw other at h)
      ];
    }

pub insert-EntriesKnown :
    (name : Bytes) (i : Inode) (kind : FileKind) (es : DirectoryDescriptor) (s : Fs)
    → Has s i kind
    → EntriesKnown s es
    → EntriesKnown s (BTreeMap.insert name (i, kind) es)
insert-EntriesKnown name i kind es s h k other j kind' e = elim (Bool-cases (bytes_eq name other)) [
  | inl same ↦
      let one : some (i, kind) ≡ some (j, kind') =
        ground (arith, get-insert name other (i, kind) es) in
      subst (λ (p : Inode × FileKind). Has s p.0 p.1) (some-injective _ _ one) h
  | inr apart ↦ k other j kind' (ground (arith, get-insert name other (i, kind) es))
]

pub remove-EntriesKnown :
    (name : Bytes) (es : DirectoryDescriptor) (s : Fs)
    → EntriesKnown s es
    → EntriesKnown s (BTreeMap.remove name es)
remove-EntriesKnown name es s k other j kind e =
    k other j kind (ground (arith, get-remove name other es))
