-- ===== src/Fs/Names/Parents.antt =====
-- fs.rs: entering the parent and making the node, in the creating handlers.
use cultivate.Common.{ℕ, ◌≡◌, ◌∙◌, sym, refl, some, bytes_key, nat_key, ◌>>=◌, ◌>>◌, Bytes}
use mathlib.Core.Path.{subst, ap₂}
use cultivate.Inode.Clock.{SystemTime}
use cultivate.Inode.{Inode, FileKind, InodeAttributes}
use cultivate.Fs.{Fs, F, Request, get_inode, set_inode}
use cultivate.Fs.Access.{require_access, w_ok}
use cultivate.Fs.Node.{touch}
use cultivate.Fs.Create.{own}
use cultivate.Fs.Valid.{IsValid, Post}
use cultivate.Fs.Valid.Nodes.{Room, Made, Touched, touch-Post, create_new_node-Post}
use cultivate.Fs.Names.{allocated, view, Namespace, named, linked}
use cultivate.Fs.Names.Calls.{then_ok, get_inode-some, require_access_open}
use cultivate.Fs.Names.States.{
  view-set_inode, touched, stamped, touch-stamped, view-stamped, Born, relinked, names_of,
  names_of-insert, view-relinked_of,
}
use cultivate.BTreeMap
use cultivate.Mount.{DirectoryDescriptor}

-- A parent that may be written to, with new times.
pub enter_parent-stamped :
    {B : Type 0} (now : ℕ → SystemTime) (req : Request) (parent : Inode) (a : InodeAttributes)
    (k : InodeAttributes → F B) (s : Fs)
    → IsValid s
    → s.mount.nodes parent ≡ some a
    → (do b ← get_inode parent; require_access req b w_ok; c ← touch now b; k c) s
      ≡ k (touched now a s) (stamped now a s)
enter_parent-stamped now req parent a k s v here =
    then_ok _ _ _ (get_inode-some parent a s here)
    ∙ then_ok _ _ _ (require_access_open req a s (v.known parent a here).mode)
    ∙ then_ok _ _ _ (touch-stamped now a s)

pub view-enter :
    (now : ℕ → SystemTime) (parent : Inode) (a : InodeAttributes) (s : Fs)
    → IsValid s
    → s.mount.nodes parent ≡ some a
    → view (stamped now a s) ≡ view s
view-enter now parent a s v here =
    view-stamped now a a s
      (subst (λ i. s.mount.nodes i ≡ some a) (sym (v.keyed parent a here)) here) refl

-- A new node with the user as its owner.
pub view-own :
    (now : ℕ → SystemTime) (req : Request) (c n : InodeAttributes) (kind : FileKind) (s t : Fs)
    → Born now kind s n t
    → view (set_inode (own req c n) t).1 ≡ allocated kind (view s)
unfolding own
view-own now req c n kind s t b = view-set_inode (own req c n) n t b.here refl ∙ b.shows

pub stamped-IsValid :
    (now : ℕ → SystemTime) (parent : Inode) (a : InodeAttributes) (s : Fs)
    → IsValid s
    → s.mount.nodes parent ≡ some a
    → IsValid (stamped now a s)
stamped-IsValid now parent a s v here =
    (subst (Post (Touched now a s)) (touch-stamped now a s)
      (touch-Post now a s v (v.known parent a here))).holds.0

pub Born-IsValid :
    (now : ℕ → SystemTime) (kind : FileKind) (s : Fs) (n : InodeAttributes) (t : Fs)
    → IsValid s
    → Room s
    → Born now kind s n t
    → IsValid t
Born-IsValid now kind s n t v room b =
    (subst (Post (Made s kind)) b.run (create_new_node-Post now kind s v room)).holds.0

-- A new inode's entry in its parent.
pub entered_shown :
    (parent : Inode) (name : Bytes) (es : DirectoryDescriptor) (kind : FileKind)
    (attrs : InodeAttributes) (n : Namespace) (s : Fs)
    → attrs.inode ≡ n.next
    → attrs.kind ≡ kind
    → view s ≡ allocated kind n
    → view (relinked parent (BTreeMap.insert name (attrs.inode, attrs.kind) es) s)
      ≡ linked kind parent name (names_of es) n
entered_shown parent name es kind attrs n s number is shows =
    view-relinked_of parent _ s (named name (n.next, kind) (names_of es)) (allocated kind n)
      (names_of-insert name (attrs.inode, attrs.kind) es
        ∙ ap₂ (λ i k. named name (i, k) (names_of es)) number is)
      shows
