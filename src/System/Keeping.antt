-- ===== src/System/Keeping.antt =====
-- service/backend.rs with fs.rs: the mounts of the daemon stay valid.
use cultivate.Common.{
  ℕ, ◌<◌, ◌≡◌, ◌∙◌, refl, sym, ap, some, List, Bytes, bytes_key, bytes_eq, Bool-cases, inl, inr,
}
use mathlib.Core.Path.{subst}
use mathlib.Core.Option.{some-injective, none-ne-some}
use cultivate.HashMap
use cultivate.ContentHash.{Blake3}
use cultivate.Mount.{Mount, DirectoryDescriptor}
use cultivate.Inode.Clock.{SystemTime}
use cultivate.Inode.{Inode, FileKind, InodeAttributes}
use cultivate.Fs.{Fs}
use cultivate.Fs.Listing.{ReplyDirectory}
use cultivate.Fs.Storing.{Adds, Adds-refl}
use cultivate.Fs.Storing.Steps.{Step-Adds}
use cultivate.Fs.Valid.{IsValid, Since, Since-Known, Since-EntriesKnown}
use cultivate.Fs.Valid.Start.{init-untouched}
use cultivate.Session.{fs_of}
use cultivate.Session.Kept.{Unharmed, read_request-Unharmed}
use cultivate.System.{
  written_back, AllValid, Event, called, started, requested, broken, ended, Reaches, begin,
  followed, start,
}
use cultivate.Store.Laws.{new-IsAddressed}
use cultivate.Fs.Valid.Serving.{Step-IsValid}
use cultivate.Daemon
use cultivate.Daemon.{Daemon, Platform, Session}
use cultivate.Daemon.Grows.{Grows}
use cultivate.Daemon.Origins.{Alike, Alike-refl, Origin, kept, bare}
use cultivate.Service.{Prost}
use cultivate.Service.Calls.{serve-Growing}

-- Validity does not depend on the counter of handles, and stays when the store grows.
transfer : {s t : Fs} → IsValid s → Alike s.mount t.mount → Adds s.store t.store → IsValid t
transfer {s = s} {t = t} v a g =
    let since : Since s t = record {
      kinds = λ i kind h. (h.0, ap (λ f. f i) a.nodes ∙ h.1, h.2);
      files = g.files;
      symlinks = g.symlinks;
    } in
    let node = λ (i : Inode). ap (λ f. f i) a.nodes in
    let directory = λ (i : Inode). ap (λ f. f i) a.directories in
    record {
      keyed = λ i c h. v.keyed i c (sym (node i) ∙ h);
      fresh = λ i c h. subst (λ n. i < n) (sym a.next_inode) (v.fresh i c (sym (node i) ∙ h));
      known = λ i c h. Since-Known since (v.known i c (sym (node i) ∙ h));
      directory =
          λ i es h. since.kinds i FileKind.directory (v.directory i es (sym (directory i) ∙ h));
      entries = λ i es h. Since-EntriesKnown es since (v.entries i es (sym (directory i) ∙ h));
    }

-- A mount with nothing in it is valid.
bare-IsValid :
    (s : Fs) → s.mount.nodes ≡ HashMap.empty → s.mount.directories ≡ HashMap.empty → IsValid s
bare-IsValid s nodes directories =
    let no_node = λ (i : Inode) (a : InodeAttributes) (h : s.mount.nodes i ≡ some a).
      none-ne-some a (sym (ap (λ f. f i) nodes) ∙ h) in
    let no_directory =
      λ (i : Inode) (es : DirectoryDescriptor) (h : s.mount.directories i ≡ some es).
        none-ne-some es (sym (ap (λ f. f i) directories) ∙ h) in
    record {
      keyed = λ i a h. absurd (no_node i a h);
      fresh = λ i a h. absurd (no_node i a h);
      known = λ i a h. absurd (no_node i a h);
      directory = λ i es h. absurd (no_directory i es h);
      entries = λ i es h. absurd (no_directory i es h);
    }

-- Calls of the service keep the mounts valid.
Grows-AllValid : {s t : Daemon} → Grows s t → AllValid s → AllValid t
Grows-AllValid {s = s} {t = t} g v = record { at = λ path m h. from path m (g.origins path m h) }
  where
    from : (path : Bytes) (m : Mount) → Origin s path m → IsValid (fs_of t m 1)
    from path m (kept l found a) =
        transfer (v.at path l found) a
          (record { files = g.files; symlinks = g.symlinks; trees = g.trees; commits = g.commits })
    from path m (bare nodes directories) = bare-IsValid _ nodes directories

-- A request of a session keeps the mounts valid.
written_back-AllValid :
    (session : Session) (u : Fs) (before after : List Session) (s : Daemon)
    → IsValid u
    → Adds s.store u.store
    → AllValid s
    → AllValid (written_back session u before after s)
written_back-AllValid session u before after s valid g v = record {
  at = λ q n h. elim (Bool-cases (bytes_eq session.mountpoint q)) [
    | inl same ↦
        let one : u.mount ≡ n = some-injective _ _ (rw same at h) in
        subst (λ m. IsValid (fs_of (written_back session u before after s) m 1)) one
          (transfer valid (Alike-refl u.mount) (Adds-refl u.store))
    | inr other ↦ transfer (v.at q n (rw other at h)) (Alike-refl n) g
  ];
}

-- A session that ends without harm keeps the mounts valid.
Unharmed-AllValid :
    {s t : Daemon} (before after : List Session)
    → Unharmed s t
    → AllValid s
    → AllValid (ended before after t)
Unharmed-AllValid {s = s} {t = t} before after u v = record {
  at = λ q m h.
      transfer (v.at q m (sym (u.mounts q) ∙ h)) (Alike-refl m)
        (subst (Adds s.store) (sym u.store) (Adds-refl s.store));
}

module _ (b : Blake3) (prost : Prost) (platform : Platform) (now : ℕ → SystemTime)
    (d : ReplyDirectory) where
  Event-AllValid : {s t : Daemon} → AllValid s → Event b prost platform now d s t → AllValid t
  Event-AllValid {s = s} v (called c e) =
      subst AllValid e (Grows-AllValid ((serve-Growing b prost platform c).at s) v)
  Event-AllValid {s = s} v
        (started before after session op ws tree readings fuel has found empty e) =
      let (u, run, valid, same) =
        init-untouched now s.store op ws tree readings fuel session.next_file_handle empty in
      subst AllValid (ap (λ r. written_back session r.1 before after s) (sym run) ∙ e) (
        written_back-AllValid session u before after s valid
          (subst (Adds s.store) (sym same) (Adds-refl s.store)) v)
  Event-AllValid {s = s} v (requested before after session m u has found step e) =
      let before_it =
        transfer (v.at session.mountpoint m found) (Alike-refl m) (Adds-refl s.store) in
      subst AllValid e (
        written_back-AllValid session u before after s (Step-IsValid b now d before_it step)
          (Step-Adds b now d step) v)
  Event-AllValid {s = s} v (broken before after session inode fh offset size has panics e) =
      subst AllValid e (
        Unharmed-AllValid before after
          (read_request-Unharmed session.mountpoint inode fh offset size s) v)

  -- From a daemon whose mounts are all valid file systems, every state that calls of the service, whatever
  -- their outcome, answered requests to the mounted file systems, and reads there that panic lead to,
  -- interleaved in any order, is one whose mounts are all valid file systems, when writes go to regular
  -- files, inode numbers are left where one is made, and the first request of a session finds its mount
  -- empty and the empty tree in the store under its id.
  pub Reaches-AllValid :
      {s t : Daemon} → AllValid s → Reaches b prost platform now d s t → AllValid t
  Reaches-AllValid v begin = v
  Reaches-AllValid v (followed r e) = Event-AllValid (Reaches-AllValid v r) e

-- The daemon starts, with no mounts.
start-AllValid : (b : Blake3) → (s : Daemon) × (start b ≡ some s) × AllValid s
unfolding start Daemon.new
start-AllValid b =
    let (store, made, _, _) = new-IsAddressed b in
    (Daemon.new store, rw made refl, record { at = λ path m h. absurd (none-ne-some m h) })
