-- ===== src/Fs/Names/Inserting.antt =====
-- fs.rs: `insert_link`, and the end of `symlink`, seen through the tree of names.
use cultivate.Common.{
  Bool, pure, unwrap, modify, ℕ, ◌≡◌, ◌∙◌, refl, ap, true, false, Option, none, some, Bytes,
  bytes_key, nat_key, Outcome, ok, err, panic, ◌>>=◌, ◌>>◌, ◌>>=?◌, Option-cases, inl, inr, is_utf8,
  Bool-cases,
}
use mathlib.Core.Path.{ap₂}
use cultivate.HashMap
use cultivate.HashMap.{HashMap}
use cultivate.BTreeMap
use cultivate.Errno.{Errno, eexist}
use cultivate.Inode.Clock.{SystemTime}
use cultivate.Inode.{
  Inode, FileKind, FileType, InodeAttributes, set_hash, FileAttr, file_attr, file_type,
}
use cultivate.Mount.{DirectoryDescriptor}
use cultivate.Fs.{Fs, F, Request, set_inode}
use cultivate.Object.Encoding.{symlink_get_hash_lem}
use cultivate.Fs.Node.{insert_link}
use cultivate.Fs.Create.{to_str}
use cultivate.Fs.Valid.{IsValid}
use cultivate.Fs.Names.{view, observe, Shown}
use cultivate.Fs.Names.Calls.{then_ok, then_err, then_panic, Meets, require_absent-Meets}
use cultivate.Fs.Names.States.{
  view-set_inode, relinked, last_entry-relinked, last_entry_panic, stamped,
}
use cultivate.Fs.Names.Parents.{enter_parent-stamped}
use cultivate.ContentHash.{Blake3}
use cultivate.Object.{ObjectId, empty_symlink, symlink_get_hash}

-- The hash of the link to a target, where the target is text and can be encoded.
unfoldable pub link_hash : Blake3 → Bytes → Option ObjectId
link_hash b target =
    to_str target >>=? λ text. symlink_get_hash b (record empty_symlink { target = text })

abbrev pub is_some : {A : Type 0} → Option A → Bool
is_some none = false
is_some (some a) = true

-- Every text can be hashed.
pub is_some-link_hash :
    (b : Blake3) (target : Bytes) → is_some (link_hash b target) ≡ is_utf8 target
unfolding link_hash
is_some-link_hash b target = elim (Bool-cases (is_utf8 target)) [
  | inl text ↦
      rw text (ap is_some (symlink_get_hash_lem b (record empty_symlink { target = target })))
  | inr binary ↦ rw binary refl
]

-- The end of `symlink`, after the entry was made.
module _ (b : Blake3) (target : Bytes) (attrs : InodeAttributes) where
  abbrev pub store_link : F FileAttr
  store_link = do
    text ← unwrap (to_str target)
    let link = record empty_symlink { target = text }
    hash ← unwrap (symlink_get_hash b link)
    modify (λ s. record s {
      store = record s.store { symlinks = HashMap.insert hash link s.store.symlinks };
    })
    let attrs' = set_hash hash attrs
    set_inode attrs'
    pure (file_attr attrs')

  abbrev pub stored_reply : Bool → Outcome Errno Shown
  stored_reply false = panic
  stored_reply true = ok (attrs.inode, FileType.symlink)

  pub store_link_shown :
      (c : InodeAttributes) (s : Fs)
      → s.mount.nodes attrs.inode ≡ some c
      → c.kind ≡ attrs.kind
      → attrs.kind ≡ FileKind.symlink
      → observe (store_link s) ≡ (stored_reply (is_some (link_hash b target)), view s)
  unfolding link_hash set_inode file_attr file_type view
  store_link_shown c s here alike kind = elim (Option-cases (to_str target)) [
    | inl binary ↦ ap observe (then_panic _ _ _ (ap (λ o. unwrap o s) binary)) ∙ rw binary refl
    | inr (text, e) ↦
        elim (Option-cases (symlink_get_hash b (record empty_symlink { target = text }))) [
          | inl large ↦
              ap observe (
                then_ok _ _ _ (ap (λ o. unwrap o s) e)
                ∙ then_panic _ _ _ (ap (λ o. unwrap o s) large))
              ∙ rw (e, large) refl
          | inr (hash, f) ↦
              ap observe (
                then_ok _ _ _ (ap (λ o. unwrap o s) e)
                ∙ then_ok _ _ _ (ap (λ o. unwrap o s) f)
                ∙ then_ok _ _ _ refl
                ∙ then_ok _ _ _ refl)
              ∙ ap₂ (λ k x. (ok (attrs.inode, file_type k), x)) kind
                  (view-set_inode (set_hash hash attrs) c
                    (record s {
                      store = record s.store {
                        symlinks =
                            HashMap.insert hash (record empty_symlink { target = text })
                              s.store.symlinks;
                      };
                    })
                    here alike)
              ∙ rw (e, f) refl
        ]
  ]

-- `insert_link` in a valid state.
module _ (now : ℕ → SystemTime) (req : Request) (parent : Inode) (name : Bytes) (i : Inode)
    (kind : FileKind) (s : Fs) (v : IsValid s) where
  pub insert_link_taken :
      {x : InodeAttributes}
      → Meets parent name s (some x)
      → insert_link now req parent name i kind s ≡ (err eexist, s)
  unfolding insert_link
  insert_link_taken m = then_err _ _ _ (require_absent-Meets parent name s _ m)

  pub insert_link_plain :
      (a : InodeAttributes)
      → Meets parent name s none
      → s.mount.nodes parent ≡ some a
      → s.mount.directories parent ≡ none
      → insert_link now req parent name i kind s ≡ (panic, stamped now a s)
  unfolding insert_link stamped
  insert_link_plain a m here bare =
      then_ok _ _ _ (require_absent-Meets parent name s _ m)
      ∙ enter_parent-stamped now req parent a _ s v here
      ∙ last_entry_panic parent name _ _ bare

  pub insert_link_made :
      (a : InodeAttributes) (es : DirectoryDescriptor)
      → Meets parent name s none
      → s.mount.nodes parent ≡ some a
      → s.mount.directories parent ≡ some es
      → insert_link now req parent name i kind s
        ≡ (ok tt, relinked parent (BTreeMap.insert name (i, kind) es) (stamped now a s))
  unfolding insert_link stamped
  insert_link_made a es m here listed =
      then_ok _ _ _ (require_absent-Meets parent name s _ m)
      ∙ enter_parent-stamped now req parent a _ s v here
      ∙ last_entry-relinked parent name _ es _ listed
