-- ===== src/Fs/Valid/Writing.antt =====
-- fs.rs: validity along `write`.
use cultivate.Common.{
  ℕ, ◌+◌, ◌≡◌, refl, ◌∙◌, Option, none, some, Bytes, length, arith, Bool-cases, inl, inr, bytes_eq,
  bytes_key, bytes_eq_iff, ◌>>=◌, modify, ℤ, pos, negsuc,
}
use mathlib.Core.Path.{subst}
use mathlib.Core.Option.{some-injective}
use cultivate.Errno.{Errno}
use cultivate.HashMap
use cultivate.ContentHash.{Blake3}
use cultivate.Object.{ObjectId, File, file_get_hash}
use cultivate.Inode.Clock.{SystemTime}
use cultivate.Inode.{
  Inode, FileKind, InodeAttributes, set_hash, update_last_modified, update_last_metadata_changed,
}
use cultivate.Fs.{Fs}
use cultivate.Fs.Handle.{check_file_handle_write}
use cultivate.Fs.Content.{write, write_node, base_file, grown}
use cultivate.Fs.Valid.{
  Known, Known-alike, IsValid, Since-Known, Still, Still-refl, Still-trans, Post, bind-Post,
}
use cultivate.Fs.Valid.Calls.{unwrap-Post, set_inode-Post}
use cultivate.Fs.Valid.Nodes.{time_now-Post}
use cultivate.Fs.Valid.Making.{Survives}
use cultivate.Fs.Valid.Others.{same-Post}

-- A new file in the store.
with_file : ObjectId → File → Fs → Fs
with_file hash f s = record s {
  store = record s.store { files = HashMap.insert hash f s.store.files };
}

with_file-Still : (hash : ObjectId) (f : File) (s : Fs) → Still s (with_file hash f s)
unfolding with_file
with_file-Still hash f s = record {
  since = record {
    kinds = λ i kind h. h;
    files = λ h g e. elim (Bool-cases (bytes_eq hash h)) [
      | inl same ↦ (f, rw same)
      | inr other ↦ (g, rw other e)
    ];
    symlinks = λ h l e. (l, e);
  };
  counter = refl;
}

with_file-IsValid : (hash : ObjectId) (f : File) (s : Fs) → IsValid s → IsValid (with_file hash f s)
unfolding with_file
with_file-IsValid hash f s v =
    let since = (with_file-Still hash f s).since in
    record {
      keyed = v.keyed;
      fresh = v.fresh;
      known = λ i a h. Since-Known since (v.known i a h);
      directory = v.directory;
      entries = v.entries;
    }

modify-Post :
    (hash : ObjectId) (f : File) (s : Fs)
    → IsValid s
    → Post
        (λ _ t. Still s t × (t.store.files hash ≡ some f))
        (modify {E = Errno}
          (λ s. record s { store = record s.store { files = HashMap.insert hash f s.store.files } })
          s)
unfolding with_file
modify-Post hash f s v = record {
  holds = (
    with_file-IsValid hash f s v,
    (with_file-Still hash f s, rw ((bytes_eq_iff hash hash).1 refl)),
  );
}

hashed-Known :
    (hash : ObjectId) (f : File) (a : InodeAttributes) (s : Fs)
    → a.kind ≡ FileKind.file
    → s.store.files hash ≡ some f
    → Known s a
    → Known s (set_hash hash a)
hashed-Known hash f a s kind stored k = record {
  has = k.has;
  mode = k.mode;
  backed = λ h e g. (f, subst (λ i. s.store.files i ≡ some f) (some-injective _ _ g) stored);
  linked = λ h e g. cc;
}

base_file_same : (o : Option ObjectId) (s : Fs) → (base_file o s).1 ≡ s
unfolding ◌>>=◌
base_file_same o s = ground arith

grown-Known : (a : InodeAttributes) (end : ℕ) (s : Fs) → Known s a → Known s (grown a end)
unfolding grown
grown-Known a end s k =
    Known-alike a _ (ground arith) (ground arith) (ground arith) (ground arith) k

grown-kind : (a : InodeAttributes) (end : ℕ) → (grown a end).kind ≡ a.kind
unfolding grown
grown-kind a end = ground arith

module _ (b : Blake3) (now : ℕ → SystemTime) where
  write_node-Survives :
      (a : InodeAttributes) (offset : ℕ) (bytes : Bytes) (s : Fs)
      → IsValid s
      → Known s a
      → a.kind ≡ FileKind.file
      → Survives (write_node b now (some a) offset bytes s)
  unfolding write_node
  write_node-Survives a offset bytes s v k kind =
      bind-Post _ _ _ (same-Post (base_file a.hash s) s (base_file_same a.hash s) v) λ f t vt st.
        bind-Post _ _ _ (time_now-Post now t vt) λ m u vu tu.
          bind-Post _ _ _ (time_now-Post now u vu) λ c w vw uw.
            let touched = update_last_metadata_changed c (update_last_modified m a) in
            let sized = grown touched (length bytes + offset) in
            bind-Post _ _ _
              (unwrap-Post {Q = λ _ x. Still w x} (file_get_hash b _) w vw λ h e. Still-refl w)
              λ hash x vx wx. bind-Post _ _ _ (modify-Post hash _ x vx) λ _ y vy xy.
                let sy = Still-trans st (Still-trans tu (Still-trans uw (Still-trans wx xy.0))) in
                let known =
                  grown-Known touched (length bytes + offset) y
                    (Known-alike a touched refl refl refl refl (Since-Known sy.since k)) in
                bind-Post _ _ _
                  (set_inode-Post (set_hash hash sized) y vy
                    (hashed-Known hash _ sized y (grown-kind touched _ ∙ kind) xy.1 known))
                  λ _ z vz _. record { holds = (vz, tt) }

  node-Survives :
      (o : Option InodeAttributes) (offset : ℕ) (bytes : Bytes) (s : Fs)
      → IsValid s
      → ((a : InodeAttributes) → o ≡ some a → Known s a × (a.kind ≡ FileKind.file))
      → Survives (write_node b now o offset bytes s)
  unfolding write_node
  node-Survives none offset bytes s v k = record { holds = v }
  node-Survives (some a) offset bytes s v k =
      write_node-Survives a offset bytes s v (k a refl).0 (k a refl).1

  -- Only files are written to.
  pub write-Survives :
      (i : Inode) (fh : ℕ) (offset : ℤ) (bytes : Bytes) (s : Fs)
      → IsValid s
      → ((a : InodeAttributes) → s.mount.nodes i ≡ some a → a.kind ≡ FileKind.file)
      → Survives (write b now i fh offset bytes s)
  unfolding write ◌>>=◌
  write-Survives i fh (negsuc n) bytes s v file = record { holds = tt }
  write-Survives i fh (pos n) bytes s v file = elim (Bool-cases (check_file_handle_write fh)) [
    | inl granted ↦
        rw granted (node-Survives (s.mount.nodes i) n bytes s v λ a e. (v.known i a e, file a e))
    | inr refused ↦ rw refused (record { holds = v })
  ]
