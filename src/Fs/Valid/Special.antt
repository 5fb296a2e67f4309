-- ===== src/Fs/Valid/Special.antt =====
-- fs.rs: validity along `mknod` and `symlink`.
use cultivate.Common.{
  ℕ, ◌≡◌, refl, Bool, true, false, some, Bytes, Bool-cases, inl, inr, bytes_eq, bytes_key,
  bytes_eq_iff, if◌then◌else◌, pure, throw, assert, modify, length,
}
use mathlib.Core.Path.{subst}
use mathlib.Core.Option.{some-injective}
use cultivate.Errno.{Errno, enosys}
use cultivate.HashMap
use cultivate.ContentHash.{Blake3}
use cultivate.Object.{ObjectId, Symlink, symlink_get_hash}
use cultivate.Inode.Clock.{SystemTime}
use cultivate.Inode.{Inode, FileKind, InodeAttributes, set_hash, set_size}
use cultivate.Fs.{Fs, Request}
use cultivate.Fs.Node.{as_file_kind}
use cultivate.Fs.Create.{own, to_str, masked, symlink, mknod}
use cultivate.Fs.Valid.{
  Has, Known, Known-alike, IsValid, Since-Known, Still, Still-refl, Still-trans, Post, bind-Post,
}
use cultivate.Fs.Valid.Calls.{unwrap-Post, get_inode-Post, require_absent-Post, set_inode-Post}
use cultivate.Fs.Valid.Nodes.{Room, Still-Room, touch-Post}
use cultivate.Fs.Valid.Making.{
  Survives, add_entry-Post, enter_parent-Post, insert_link-Post, make_node-Post,
}

check-Post :
    (test : Bool) (e : Errno) (s : Fs)
    → IsValid s
    → Post (λ _ t. Still s t) ((if test then pure tt else throw e) s)
check-Post true e s v = record { holds = (v, Still-refl s) }
check-Post false e s v = record { holds = v }

assert-Post :
    (test : Bool) (s : Fs) → IsValid s → Post (λ _ t. Still s t) (assert {E = Errno} test s)
assert-Post true s v = record { holds = (v, Still-refl s) }
assert-Post false s v = record { holds = tt }

pub mknod-Survives :
    (now : ℕ → SystemTime) (req : Request) (parent : Inode) (name : Bytes) (mode : ℕ) (s : Fs)
    → IsValid s
    → Room s
    → Survives (mknod now req parent name mode s)
unfolding mknod
mknod-Survives now req parent name mode s v room =
    bind-Post _ _ _ (check-Post _ enosys s v) λ _ s₁ v₁ p₁.
      bind-Post _ _ _ (require_absent-Post parent name s₁ v₁) λ _ t vt p₂.
        bind-Post _ _ _ (get_inode-Post parent t vt) λ a u vu (p₃, number).
          bind-Post _ _ _ (touch-Post now a u vu p₃.1) λ c w vw p₄.
            let su = Still-trans p₁ (Still-trans p₂ (Still-trans p₃.0 p₄.0)) in
            bind-Post _ _ _
              (unwrap-Post {Q = λ _ x. Still w x} (as_file_kind (masked req mode)) w vw
                λ k e. Still-refl w)
              λ kind x vx p₅.
                make_node-Post now req c x vx (Still-Room (Still-trans su p₅) room)
                  λ node y vy made known. bind-Post _ _ _ (set_inode-Post _ y vy known) λ _ z vz p₆.
                    add_entry-Post parent name _ _ z vz (p₆.since.kinds _ _ known.has)
                      λ z' vz' p₇ up.
                        bind-Post _ _ _
                          (unwrap-Post {Q = λ _ _. Unit {0}} (as_file_kind (masked req mode)) z' vz'
                            λ k e. tt)
                          λ kind' z'' vz'' _.
                            bind-Post _ _ _ (assert-Post _ z'' vz'')
                              λ _ last vl _. record { holds = (vl, tt) }

-- A new link in the store.
with_symlink : ObjectId → Symlink → Fs → Fs
with_symlink hash link s = record s {
  store = record s.store { symlinks = HashMap.insert hash link s.store.symlinks };
}

with_symlink-Still :
    (hash : ObjectId) (link : Symlink) (s : Fs) → Still s (with_symlink hash link s)
unfolding with_symlink
with_symlink-Still hash link s = record {
  since = record {
    kinds = λ i kind h. h;
    files = λ h f e. (f, e);
    symlinks = λ h l e. elim (Bool-cases (bytes_eq hash h)) [
      | inl same ↦ (link, rw same)
      | inr other ↦ (l, rw other e)
    ];
  };
  counter = refl;
}

with_symlink-IsValid :
    (hash : ObjectId) (link : Symlink) (s : Fs) → IsValid s → IsValid (with_symlink hash link s)
unfolding with_symlink
with_symlink-IsValid hash link s v =
    let since = (with_symlink-Still hash link s).since in
    record {
      keyed = v.keyed;
      fresh = v.fresh;
      known = λ i a h. Since-Known since (v.known i a h);
      directory = v.directory;
      entries = v.entries;
    }

modify-Post :
    (hash : ObjectId) (link : Symlink) (s : Fs)
    → IsValid s
    → Post
        (λ _ t. Still s t × (t.store.symlinks hash ≡ some link))
        (modify {E = Errno}
          (λ s. record s {
            store = record s.store { symlinks = HashMap.insert hash link s.store.symlinks };
          })
          s)
unfolding with_symlink
modify-Post hash link s v = record {
  holds = (
    with_symlink-IsValid hash link s v,
    (with_symlink-Still hash link s, rw ((bytes_eq_iff hash hash).1 refl)),
  );
}

-- Attributes of a link that got the hash of a stored object.
hashed-Known :
    (hash : ObjectId) (link : Symlink) (a : InodeAttributes) (s : Fs)
    → a.kind ≡ FileKind.symlink
    → s.store.symlinks hash ≡ some link
    → Known s a
    → Known s (set_hash hash a)
hashed-Known hash link a s kind stored k = record {
  has = k.has;
  mode = k.mode;
  backed = λ h e f. cc;
  linked =
      λ h e f. (link, subst (λ i. s.store.symlinks i ≡ some link) (some-injective _ _ f) stored);
}

pub symlink-Survives :
    (b : Blake3) (now : ℕ → SystemTime) (req : Request) (parent : Inode) (name target : Bytes)
    (s : Fs)
    → IsValid s
    → Room s
    → Survives (symlink b now req parent name target s)
unfolding symlink
symlink-Survives b now req parent name target s v room =
    enter_parent-Post now req parent s v λ c t vt p₁.
      make_node-Post now req c t vt (Still-Room p₁ room) λ node u vu made known.
        let a = set_size (length target) (own req c node) in
        let sized = Known-alike (own req c node) a refl refl refl refl known in
        bind-Post _ _ _
          (insert_link-Post now req parent name a.inode FileKind.symlink u vu
            (subst (Has u node.inode) made.kind made.known.has))
          λ _ w vw p₂.
            bind-Post _ _ _
              (unwrap-Post {Q = λ _ x. Still w x} (to_str target) w vw λ k e. Still-refl w)
              λ text x vx p₃.
                bind-Post _ _ _
                  (unwrap-Post {Q = λ _ y. Still x y} (symlink_get_hash b _) x vx
                    λ k e. Still-refl x)
                  λ hash y vy p₄. bind-Post _ _ _ (modify-Post hash _ y vy) λ _ z vz p₅.
                    let uz = Still-trans p₂ (Still-trans p₃ (Still-trans p₄ p₅.0)) in
                    bind-Post _ _ _
                      (set_inode-Post (set_hash hash a) z vz
                        (hashed-Known hash _ a z made.kind p₅.1 (Since-Known uz.since sized)))
                      λ _ last vl _. record { holds = (vl, tt) }
