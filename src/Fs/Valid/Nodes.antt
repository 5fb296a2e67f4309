-- ===== src/Fs/Valid/Nodes.antt =====
-- fs.rs: new inodes, and inodes whose times change.
use cultivate.Common.{
  ℕ, ◌+◌, ◌%◌, ◌^◌, ◌<◌, ◌≡◌, refl, false, none, some, arith, ok, Bool-cases, inl, inr, nat_eq,
  nat_eq_iff, nat_key, ◌>>=◌,
}
use mathlib.Core.Path.{subst}
use mathlib.Core.Option.{some-injective}
use cultivate.HashMap
use cultivate.Inode.Clock.{SystemTime}
use cultivate.Inode.{
  Inode, FileKind, InodeAttributes, new_attributes, update_last_modified,
  update_last_metadata_changed,
}
use cultivate.Mount
use cultivate.Fs.{Fs, on_mount}
use cultivate.Fs.Node.{touch}
use cultivate.Fs.Valid.{
  Has, Known, Known-alike, IsValid, Since, Since-Known, Since-EntriesKnown, Still, Still-trans,
  Post, bind-Post,
}
use cultivate.Fs.Valid.Calls.{set_inode-Post}

-- There is room for one more inode number.
abbrev pub Room : Fs → Type 0
Room s = s.mount.next_inode + 1 < 2 ^ 64

pub Still-Room : {s t : Fs} → Still s t → Room s → Room t
Still-Room p r = omega (arith, p.counter)

module _ (now : ℕ → SystemTime) where
  pub time_now-Post :
      (s : Fs) → IsValid s → Post (λ _ t. Still s t) (on_mount (Mount.time_now now) s)
  unfolding on_mount Mount.time_now
  time_now-Post s v =
      let later : Fs = record s { mount = record s.mount { readings = s.mount.readings + 1 } } in
      let since : Since s later = record {
        kinds = λ i kind h. h;
        files = λ h f e. (f, e);
        symlinks = λ h l e. (l, e);
      } in
      let valid : IsValid later = record {
        keyed = v.keyed;
        fresh = v.fresh;
        known = λ i a h. Since-Known since (v.known i a h);
        directory = v.directory;
        entries = v.entries;
      } in
      record { holds = (valid, record { since = since; counter = refl }) }

  -- `touch` keeps all but the times.
  abbrev pub Touched : InodeAttributes → Fs → InodeAttributes → Fs → Type 0
  Touched a s c t = Still s t × Known t c × (c.inode ≡ a.inode)

  pub touch-Post :
      (a : InodeAttributes) (s : Fs) → IsValid s → Known s a → Post (Touched a s) (touch now a s)
  unfolding touch
  touch-Post a s v k = bind-Post _ _ _ (time_now-Post s v) λ m t vt st.
      bind-Post _ _ _ (time_now-Post t vt) λ c u vu tu.
        let new = update_last_metadata_changed c (update_last_modified m a) in
        let su = Still-trans st tu in
        let known = Known-alike a new refl refl refl refl (Since-Known su.since k) in
        bind-Post _ _ _ (set_inode-Post new u vu known) λ _ w vw uw. record {
          holds = (vw, (Still-trans su uw, Since-Known uw.since known, refl));
        }

-- A node under the next number.
module _ (s : Fs) (a : InodeAttributes) (r : ℕ) where
  abbrev added : Fs
  added = record s {
    mount = record s.mount {
      nodes = HashMap.insert a.inode a s.mount.nodes;
      next_inode = (s.mount.next_inode + 1) % 2 ^ 64;
      readings = r;
    };
  }

  module _ (v : IsValid s) (room : Room s) (number : a.inode ≡ s.mount.next_inode)
      (mode : a.mode ≡ 0o777) (bare : a.hash ≡ none) where
    -- an inode that was there has another number
    other : (i : Inode) (c : InodeAttributes) → s.mount.nodes i ≡ some c → nat_eq a.inode i ≡ false
    other i c h = ground (arith, v.fresh i c h)

    since : Since s added
    since = record {
      kinds = λ i kind h. (h.0, rw (other i h.0 h.1) h.1, h.2);
      files = λ h f e. (f, e);
      symlinks = λ h l e. (l, e);
    }

    here : Has added a.inode a.kind
    here = (a, rw ((nat_eq_iff a.inode a.inode).1 refl), refl)

    Known-new : Known added a
    Known-new = record {
      has = here;
      mode = mode;
      backed = λ h kind hash. cc;
      linked = λ h kind hash. cc;
    }

    added-IsValid : IsValid added
    added-IsValid = record {
      keyed = λ i c h. ground (arith, v.keyed i c);
      fresh = λ i c h. ground (arith, v.fresh i c);
      known = λ i c h. elim (Bool-cases (nat_eq a.inode i)) [
        | inl same ↦ subst (Known added) (some-injective _ _ (rw same at h)) Known-new
        | inr apart ↦ Since-Known since (v.known i c (rw apart at h))
      ];
      directory = λ i es h. since.kinds i FileKind.directory (v.directory i es h);
      entries = λ i es h. Since-EntriesKnown es since (v.entries i es h);
    }

-- What `create_new_node` gives.
pub record Made (s : Fs) (k : FileKind) (a : InodeAttributes) (t : Fs) : Type 0 where
  pub since : Since s t
  pub known : Known t a
  pub kind : a.kind ≡ k
  pub bare : a.hash ≡ none
  pub number : a.inode ≡ s.mount.next_inode

made :
    (s : Fs) (a : InodeAttributes) (r : ℕ)
    → IsValid s
    → Room s
    → a.inode ≡ s.mount.next_inode
    → a.mode ≡ 0o777
    → a.hash ≡ none
    → Post (Made s a.kind) (ok a, added s a r)
made s a r v room number mode bare = record {
  holds = (
    added-IsValid s a r v room number mode bare,
    record {
      since = since s a r v room number mode bare;
      known = Known-new s a r v room number mode bare;
      kind = refl;
      bare = bare;
      number = number;
    },
  );
}

pub create_new_node-Post :
    (now : ℕ → SystemTime) (kind : FileKind) (s : Fs)
    → IsValid s
    → Room s
    → Post (Made s kind) (on_mount (Mount.create_new_node now kind) s)
unfolding on_mount Mount.create_new_node new_attributes ◌>>=◌
create_new_node-Post now FileKind.file s v room = made s _ _ v room refl refl refl
create_new_node-Post now FileKind.directory s v room = made s _ _ v room refl refl refl
create_new_node-Post now FileKind.symlink s v room = made s _ _ v room refl refl refl
