-- ===== src/Fs/Valid/Making.antt =====
-- fs.rs: validity along `insert_link` and `mkdir`.
use cultivate.Common.{ℕ, refl, [], Bytes, bytes_key, Outcome, ◌>>◌, ◌>>=◌}
use mathlib.Core.Path.{subst}
use cultivate.Errno.{Errno}
use cultivate.BTreeMap
use cultivate.Inode.Clock.{SystemTime}
use cultivate.Inode.{Inode, FileKind, InodeAttributes}
use cultivate.Mount
use cultivate.Mount.Insert.{dot, dot_dot}
use cultivate.Mount.{DirectoryDescriptor}
use cultivate.Fs.{Fs, F, Request, on_mount, get_inode, set_directory_content}
use cultivate.Fs.Access.{require_access, w_ok}
use cultivate.Fs.Node.{unwrap_directory, touch, insert_link}
use cultivate.Fs.Create.{own, mkdir}
use cultivate.Fs.Valid.{
  Has, Known, Known-alike, EntriesKnown, IsValid, Since-Known, Still, Still-trans, Post, bind-Post,
  Post-map,
}
use cultivate.Fs.Valid.Primitive.{insert-EntriesKnown}
use cultivate.Fs.Valid.Calls.{
  get_inode-Post, require_absent-Post, require_access-Post, unwrap_directory-Post, set_inode-Post,
  set_directory_content-Post,
}
use cultivate.Fs.Valid.Nodes.{Room, Still-Room, touch-Post, Made, create_new_node-Post}

-- After the call, whatever its reply, the state is valid.
abbrev pub Survives : {A : Type 0} → Outcome Errno A × Fs → Type 0
Survives p = Post (λ _ _. Unit {0}) p

-- Putting a known inode into a directory, and what follows.
pub add_entry-Post :
    {B : Type 0} {R : B → Fs → Type 0} {k : F B} (d : Inode) (name : Bytes) (i : Inode)
    (kind : FileKind) (s : Fs)
    → IsValid s
    → Has s i kind
    → ((t : Fs) → IsValid t → Still s t → Has t d FileKind.directory → Post R (k t))
    → Post R (
        (do
          entries ← unwrap_directory d
          set_directory_content d (BTreeMap.insert name (i, kind) entries)
          k)
          s)
add_entry-Post d name i kind s v h rest =
    bind-Post _ _ _ (unwrap_directory-Post d s v) λ es t vt (st, dir, known).
      bind-Post _ _ _
        (set_directory_content-Post d _ t vt dir
          (insert-EntriesKnown name i kind es t (st.since.kinds i kind h) known))
        λ _ u vu tu. rest u vu (Still-trans st tu) (tu.since.kinds d FileKind.directory dir)

module _ (now : ℕ → SystemTime) where
  -- Looking up a parent that the user may write to, and setting its times.
  pub enter_parent-Post :
      {B : Type 0} {R : B → Fs → Type 0} {k : InodeAttributes → F B} (req : Request)
      (parent : Inode) (s : Fs)
      → IsValid s
      → ((c : InodeAttributes) (t : Fs) → IsValid t → Still s t → Post R (k c t))
      → Post R ((do a ← get_inode parent; require_access req a w_ok; c ← touch now a; k c) s)
  enter_parent-Post req parent s v rest =
      bind-Post _ _ _ (get_inode-Post parent s v) λ a t vt (st, number).
        bind-Post _ _ _ (require_access-Post req a w_ok t vt) λ _ u vu tu.
          bind-Post _ _ _ (touch-Post now a u vu (Since-Known tu.since st.1))
            λ c w vw uw. rest c w vw (Still-trans st.0 (Still-trans tu uw.0))

  pub insert_link-Post :
      (req : Request) (parent : Inode) (name : Bytes) (i : Inode) (kind : FileKind) (s : Fs)
      → IsValid s
      → Has s i kind
      → Post (λ _ t. Still s t) (insert_link now req parent name i kind s)
  unfolding insert_link
  insert_link-Post req parent name i kind s v h =
      bind-Post _ _ _ (require_absent-Post parent name s v) λ _ t vt st.
        enter_parent-Post req parent t vt λ c u vu tu.
          let su = Still-trans st tu in
          bind-Post _ _ _ (unwrap_directory-Post parent u vu) λ es w vw (uw, dir, known).
            let sw = Still-trans su uw in
            Post-map (λ _ x wx. Still-trans sw wx)
              (set_directory_content-Post parent _ w vw dir
                (insert-EntriesKnown name i kind es w (sw.since.kinds i kind h) known))

  -- A new node of the user's.
  pub make_node-Post :
      {B : Type 0} {R : B → Fs → Type 0} {k : InodeAttributes → F B} {kind : FileKind}
      (req : Request) (parent_attrs : InodeAttributes) (s : Fs)
      → IsValid s
      → Room s
      → ((a : InodeAttributes) (t : Fs)
          → IsValid t
          → Made s kind a t
          → Known t (own req parent_attrs a)
          → Post R (k a t))
      → Post R ((on_mount (Mount.create_new_node now kind) >>= k) s)
  unfolding own
  make_node-Post {kind = kind} req parent_attrs s v room rest =
      bind-Post _ _ _ (create_new_node-Post now kind s v room) λ a t vt made.
        rest a t vt made (Known-alike a (own req parent_attrs a) refl refl refl refl made.known)

  -- The entries of a new directory.
  new_directory-EntriesKnown :
      (i parent : Inode) (s : Fs)
      → Has s i FileKind.directory
      → Has s parent FileKind.directory
      → EntriesKnown s (
          BTreeMap.insert dot_dot
            (parent, FileKind.directory)
            (BTreeMap.insert dot (i, FileKind.directory) []))
  unfolding BTreeMap.get
  new_directory-EntriesKnown i parent s h up =
      insert-EntriesKnown dot_dot parent FileKind.directory _ s up
        (insert-EntriesKnown dot i FileKind.directory [] s h (λ name j kind e. cc))

  pub mkdir-Survives :
      (req : Request) (parent : Inode) (name : Bytes) (mode : ℕ) (s : Fs)
      → IsValid s
      → Room s
      → Survives (mkdir now req parent name mode s)
  unfolding mkdir own
  mkdir-Survives req parent name mode s v room =
      bind-Post _ _ _ (require_absent-Post parent name s v) λ _ t vt st.
        enter_parent-Post req parent t vt λ c u vu tu.
          make_node-Post req c u vu (Still-Room (Still-trans st tu) room) λ a w vw made known.
            bind-Post _ _ _ (set_inode-Post _ w vw known) λ _ x vx wx.
              let i = (own req c a).inode in
              let new : Has x i FileKind.directory =
                wx.since.kinds i FileKind.directory (subst (Has w i) made.kind known.has) in
              add_entry-Post parent name i _ x vx (wx.since.kinds i _ known.has) λ y vy xy up.
                let here = xy.since.kinds i FileKind.directory new in
                bind-Post _ _ _
                  (set_directory_content-Post i _ y vy here
                    (new_directory-EntriesKnown i parent y here up))
                  λ _ z vz yz.
                    add_entry-Post parent name i FileKind.directory z vz
                      (yz.since.kinds i FileKind.directory here)
                      λ _ v' _ _. record { holds = (v', tt) }
