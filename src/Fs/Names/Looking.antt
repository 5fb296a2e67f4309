-- ===== src/Fs/Names/Looking.antt =====
-- fs.rs: `lookup` and `getattr`, seen through the tree of names.
use cultivate.Common.{
  ◌≡◌, ◌∙◌, refl, ap, Option, none, some, Bytes, bytes_key, length, ltb, nat_key, pure, ◌>>=◌,
  Bool-cases, Option-cases, inl, inr,
}
use cultivate.Inode.{Inode, InodeAttributes, file_attr}
use cultivate.Fs.{Fs, lookup_name}
use cultivate.Fs.Listing.{lookup, getattr}
use cultivate.Fs.Valid.{IsValid}
use cultivate.Fs.Names.{view, observe, found, entry, look_up, get_kind}
use cultivate.Fs.Names.Calls.{
  then_ok, then_err, get_inode-some, get_inode-none, Meets, Meets-IsValid, lookup_name-Meets,
  entry-Meets,
}

look_at :
    (parent : Inode) (name : Bytes) (s : Fs) (o : Option InodeAttributes)
    → Meets parent name s o
    → observe ((do attrs ← lookup_name parent name; pure (file_attr attrs)) s)
      ≡ found (entry (view s) parent name) (view s)
unfolding file_attr
look_at parent name s none m =
    ap observe (then_err _ _ _ (lookup_name-Meets parent name s m))
    ∙ rw (entry-Meets parent name s m) refl
look_at parent name s (some a) m =
    ap observe (then_ok _ _ _ (lookup_name-Meets parent name s m))
    ∙ rw (entry-Meets parent name s m) refl

pub lookup-look_up :
    (parent : Inode) (name : Bytes) (s : Fs)
    → IsValid s
    → observe (lookup parent name s) ≡ look_up parent name (view s)
unfolding lookup file_attr
lookup-look_up parent name s v = elim (Bool-cases (ltb 140 (length name))) [
  | inl long ↦ rw long refl
  | inr short ↦ rw short (let (o, m) = Meets-IsValid parent name s v in look_at parent name s o m)
]

pub getattr-get_kind :
    (i : Inode) (s : Fs) → IsValid s → observe (getattr i s) ≡ get_kind i (view s)
unfolding getattr view file_attr
getattr-get_kind i s v = elim (Option-cases (s.mount.nodes i)) [
  | inl gone ↦ ap observe (then_err _ _ _ (get_inode-none i s gone)) ∙ rw gone refl
  | inr (a, here) ↦
      ap observe (then_ok _ _ _ (get_inode-some i a s here)) ∙ rw (here, v.keyed i a here) refl
]
