-- ===== src/Fs/Valid/Moving.antt =====
-- fs.rs: validity along `rename`.
use cultivate.Common.{
  ℕ, refl, Bool, true, false, Option, none, some, Bytes, Bool-cases, inl, inr, if◌then◌else◌, pure,
  throw, abort, ltb, length, ◌>>◌,
}
use cultivate.Errno.{Errno, enotempty}
use cultivate.Inode.Clock.{SystemTime}
use cultivate.Inode.{Inode, FileKind, InodeAttributes, kind_eq, dec_hardlink_count}
use cultivate.Mount.Insert.{dot_dot}
use cultivate.Fs.{Fs, F, Request}
use cultivate.Fs.Access.{w_ok}
use cultivate.Fs.Rename.{
  refuse_exchange, check_empty, require_replaceable, require_movable, drop_node, drop_link,
  unlink_existing, move_entry, stamp, point_up, rename,
}
use cultivate.Fs.Valid.{
  Has, Known, Known-alike, IsValid, Since-Known, Still, Still-refl, Still-trans, Post, bind-Post,
  Post-map, Maybe,
}
use cultivate.Fs.Valid.Primitive.{insert-EntriesKnown, remove-EntriesKnown}
use cultivate.Fs.Valid.Calls.{
  Found, get_inode-Post, lookup_name-Post, attempt_lookup-Post, require_access-Post,
  unwrap_directory-Post, set_inode-Post, set_directory_content-Post,
}
use cultivate.Fs.Valid.Nodes.{time_now-Post, touch-Post}
use cultivate.Fs.Valid.Making.{Survives}

-- A call that keeps all kinds and allocates nothing.
abbrev Calm : F (Unit {0}) → Type 0
Calm m = (s : Fs) → IsValid s → Post (λ _ t. Still s t) (m s)

pure-Calm : Calm (pure tt)
pure-Calm s v = record { holds = (v, Still-refl s) }

throw-Calm : (e : Errno) → Calm (throw e)
throw-Calm e s v = record { holds = v }

abort-Calm : Calm abort
abort-Calm s v = record { holds = tt }

if-Calm : (b : Bool) (m n : F (Unit {0})) → Calm m → Calm n → Calm (if b then m else n)
if-Calm true m n p q = p
if-Calm false m n p q = q

refuse_exchange-Calm : (flags : ℕ) → Calm (refuse_exchange flags)
unfolding refuse_exchange
refuse_exchange-Calm flags = if-Calm _ abort (pure tt) abort-Calm pure-Calm

check_empty-Calm : (o : Option InodeAttributes) → Calm (check_empty o)
check_empty-Calm none = pure-Calm
check_empty-Calm (some a) =
    if-Calm (kind_eq a.kind FileKind.directory) _ _
      (λ s v. bind-Post _ _ _ (unwrap_directory-Post a.inode s v) λ es t vt h.
        Post-map (λ _ u tu. Still-trans h.0 tu)
          (if-Calm (ltb 2 (length es)) (throw enotempty) (pure tt) (throw-Calm enotempty) pure-Calm
            t vt))
      pure-Calm

require_replaceable-Calm : (d : Inode) (name : Bytes) → Calm (require_replaceable d name)
unfolding require_replaceable
require_replaceable-Calm d name s v =
    bind-Post _ _ _ (attempt_lookup-Post d name s v)
      λ o t vt h. Post-map (λ _ u tu. Still-trans h.0 tu) (check_empty-Calm o t vt)

require_movable-Calm :
    (req : Request) (d e : Inode) (a : InodeAttributes) → Calm (require_movable req d e a)
unfolding require_movable
require_movable-Calm req d e a = if-Calm _ _ _ (require_access-Post req a w_ok) pure-Calm

module _ (now : ℕ → SystemTime) where
  drop_node-Post :
      (a : InodeAttributes) (s : Fs)
      → IsValid s
      → Known s a
      → Post (λ _ t. Still s t) (drop_node now a s)
  unfolding dec_hardlink_count
  drop_node-Post a s v k = elim (Bool-cases (kind_eq a.kind FileKind.directory)) [
    | inl dir ↦ rw dir (record { holds = tt })
    | inr plain ↦ rw plain (
        bind-Post _ _ _ (time_now-Post now s v) λ c t vt st.
          Post-map (λ _ u tu. Still-trans st tu)
            (set_inode-Post _ t vt (Known-alike a _ refl refl refl refl (Since-Known st.since k))))
  ]

  drop_link-Post :
      (d : Inode) (name : Bytes) (o : Option InodeAttributes) (s t : Fs)
      → IsValid t
      → Still s t
      → Maybe (Found s) o t
      → Post (λ _ u. Still s u) (drop_link now d name o t)
  drop_link-Post d name none s t v st h = record { holds = (v, st) }
  drop_link-Post d name (some a) s t v st h =
      bind-Post _ _ _ (unwrap_directory-Post d t v) λ es u vu (tu, dir, known).
        bind-Post _ _ _
          (set_directory_content-Post d _ u vu dir (remove-EntriesKnown name es u known))
          λ _ w vw uw.
            let tw = Still-trans tu uw in
            Post-map (λ _ x wx. Still-trans (Still-trans st tw) wx)
              (drop_node-Post a w vw (Since-Known tw.since h.1))

  unlink_existing-Calm : (d : Inode) (name : Bytes) → Calm (unlink_existing now d name)
  unfolding unlink_existing
  unlink_existing-Calm d name s v =
      bind-Post _ _ _ (attempt_lookup-Post d name s v)
        λ o t vt h. drop_link-Post d name o s t vt h.0 h.1

  move_entry-Post :
      (d : Inode) (name : Bytes) (e : Inode) (new_name : Bytes) (a : InodeAttributes) (s : Fs)
      → IsValid s
      → Known s a
      → Post (λ _ t. Still s t × Has t e FileKind.directory) (move_entry now d name e new_name a s)
  unfolding move_entry
  move_entry-Post d name e new_name a s v k =
      bind-Post _ _ _ (unwrap_directory-Post d s v) λ es t vt (st, dir, known).
        bind-Post _ _ _
          (set_directory_content-Post d _ t vt dir (remove-EntriesKnown name es t known))
          λ _ u vu tu. bind-Post _ _ _ (unwrap_directory-Post e u vu) λ fs w vw (uw, dir', known').
            let sw = Still-trans st (Still-trans tu uw) in
            Post-map (λ _ x wx. (Still-trans sw wx, wx.since.kinds e FileKind.directory dir'))
              (set_directory_content-Post e _ w vw dir' (
                insert-EntriesKnown new_name a.inode a.kind fs w
                  (sw.since.kinds a.inode a.kind k.has) known'))

  stamp-Post :
      (p q a : InodeAttributes) (s : Fs)
      → IsValid s
      → Known s p
      → Known s q
      → Known s a
      → Post (λ _ t. Still s t) (stamp now p q a s)
  unfolding stamp
  stamp-Post p q a s v kp kq ka = bind-Post _ _ _ (touch-Post now p s v kp) λ _ t vt (st, _, _).
      bind-Post _ _ _ (time_now-Post now t vt) λ c u vu tu.
        bind-Post _ _ _ (time_now-Post now u vu) λ m w vw uw.
          let sw = Still-trans st (Still-trans tu uw) in
          bind-Post _ _ _
            (set_inode-Post _ w vw (Known-alike q _ refl refl refl refl (Since-Known sw.since kq)))
            λ _ x vx wx. bind-Post _ _ _ (time_now-Post now x vx) λ c' y vy xy.
              let sy = Still-trans sw (Still-trans wx xy) in
              Post-map (λ _ z yz. Still-trans sy yz)
                (set_inode-Post _ y vy
                  (Known-alike a _ refl refl refl refl (Since-Known sy.since ka)))

  point_up-Post :
      (e : Inode) (a : InodeAttributes) (s : Fs)
      → IsValid s
      → Has s e FileKind.directory
      → Post (λ _ t. Still s t) (point_up now e a s)
  unfolding point_up
  point_up-Post e a s v h = elim (Bool-cases (kind_eq a.kind FileKind.directory)) [
    | inl dir ↦ rw dir (
        bind-Post _ _ _ (unwrap_directory-Post a.inode s v) λ es t vt (st, own, known).
          Post-map (λ _ u tu. Still-trans st tu)
            (set_directory_content-Post a.inode _ t vt own (
              insert-EntriesKnown dot_dot e FileKind.directory es t
                (st.since.kinds e FileKind.directory h) known)))
    | inr plain ↦ rw plain (record { holds = (v, Still-refl s) })
  ]

  -- What follows the checks.
  finish-Post :
      (parent : Inode) (name : Bytes) (new_parent : Inode) (new_name : Bytes)
      (a p q : InodeAttributes) (s : Fs)
      → IsValid s
      → Known s a
      → Known s p
      → Known s q
      → Post
          (λ _ _. Unit {0})
          ((do
            move_entry now parent name new_parent new_name a
            stamp now p q a
            point_up now new_parent a)
            s)
  finish-Post parent name new_parent new_name a p q s v ka kp kq =
      bind-Post _ _ _ (move_entry-Post parent name new_parent new_name a s v ka) λ _ t vt (st, dir).
        bind-Post _ _ _
          (stamp-Post p q a t vt (Since-Known st.since kp) (Since-Known st.since kq)
            (Since-Known st.since ka))
          λ _ u vu tu.
            Post-map (λ _ _ _. tt)
              (point_up-Post new_parent a u vu (tu.since.kinds new_parent FileKind.directory dir))

  pub rename-Survives :
      (req : Request) (parent : Inode) (name : Bytes) (new_parent : Inode) (new_name : Bytes)
      (flags : ℕ) (s : Fs)
      → IsValid s
      → Survives (rename now req parent name new_parent new_name flags s)
  unfolding rename
  rename-Survives req parent name new_parent new_name flags s v =
      bind-Post _ _ _ (lookup_name-Post parent name s v) λ a t₁ v₁ (s₁, ka).
        bind-Post _ _ _ (get_inode-Post parent t₁ v₁) λ p t₂ v₂ ((s₂, kp), _).
          bind-Post _ _ _ (require_access-Post req p w_ok t₂ v₂) λ _ t₃ v₃ s₃.
            bind-Post _ _ _ (get_inode-Post new_parent t₃ v₃) λ q t₄ v₄ ((s₄, kq), _).
              let s₂₄ = Still-trans s₃ s₄ in
              bind-Post _ _ _ (require_access-Post req q w_ok t₄ v₄) λ _ t₅ v₅ s₅.
                bind-Post _ _ _ (refuse_exchange-Calm flags t₅ v₅) λ _ t₆ v₆ s₆.
                  bind-Post _ _ _ (require_replaceable-Calm new_parent new_name t₆ v₆) λ _ t₇ v₇ s₇.
                    bind-Post _ _ _ (require_movable-Calm req parent new_parent a t₇ v₇)
                      λ _ t₈ v₈ s₈.
                        bind-Post _ _ _ (unlink_existing-Calm new_parent new_name t₈ v₈)
                          λ _ t₉ v₉ s₉.
                            let q₉ =
                              Still-trans s₅
                                (Still-trans s₆ (Still-trans s₇ (Still-trans s₈ s₉))) in
                            let p₉ = Still-trans s₂₄ q₉ in
                            let a₉ = Still-trans s₂ p₉ in
                            finish-Post parent name new_parent new_name a p q t₉ v₉
                              (Since-Known a₉.since ka) (Since-Known p₉.since kp)
                              (Since-Known q₉.since kq)
