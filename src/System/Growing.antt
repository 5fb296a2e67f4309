-- ===== src/System/Growing.antt =====
-- service/backend.rs with fs.rs: what the daemon keeps for ever.
use cultivate.Common.{
  ℕ, ◌≡◌, ◌∙◌, sym, ap, true, if◌then◌else◌, Bool-cases, inl, inr, refl, List, Bytes,
}
use mathlib.Core.Path.{subst}
use cultivate.ContentHash.{Blake3}
use cultivate.Inode.Clock.{SystemTime}
use cultivate.Fs.{Fs}
use cultivate.Fs.Listing.{ReplyDirectory}
use cultivate.Fs.Storing.{Adds, Adds-refl, Adds-trans}
use cultivate.Fs.Storing.Steps.{Step-Adds}
use cultivate.Fs.Valid.Start.{init-untouched}
use cultivate.Daemon.{Daemon, Platform, Session}
use cultivate.Daemon.Locks.{Lock}
use cultivate.Daemon.Grows.{Within, Within-refl, Within-trans, Grows, insert-Within}
use cultivate.Service.{Prost}
use cultivate.Service.Calls.{Stays, Within-Stays, serve-Growing}
use cultivate.Session.Kept.{Unharmed, read_request-Unharmed}
use cultivate.System.{
  written_back, Event, called, started, requested, broken, ended, Reaches, begin, followed,
}

-- No object, no mount and no poison goes away.
record Lasts (s t : Daemon) : Type 0 where
  store : Adds s.store t.store
  mounts : Within s.mounts t.mounts
  poisoned : (l : Lock) → s.poisoned l ≡ true → t.poisoned l ≡ true

Lasts-refl : (s : Daemon) → Lasts s s
Lasts-refl s = record {
  store = Adds-refl s.store;
  mounts = Within-refl s.mounts;
  poisoned = λ l h. h;
}

Lasts-trans : {s t u : Daemon} → Lasts s t → Lasts t u → Lasts s u
Lasts-trans p q = record {
  store = Adds-trans p.store q.store;
  mounts = Within-trans p.mounts q.mounts;
  poisoned = λ l h. q.poisoned l (p.poisoned l h);
}

Grows-Lasts : {s t : Daemon} → Grows s t → Lasts s t
Grows-Lasts g = record {
  store = record { files = g.files; symlinks = g.symlinks; trees = g.trees; commits = g.commits };
  mounts = g.mounts;
  poisoned = g.poisoned;
}

written_back-Lasts :
    (session : Session) (u : Fs) (before after : List Session) (s : Daemon)
    → Adds s.store u.store
    → Lasts s (written_back session u before after s)
written_back-Lasts session u before after s g = record {
  store = g;
  mounts = insert-Within session.mountpoint u.mount s.mounts;
  poisoned = λ l h. h;
}

Unharmed-Lasts :
    {s t : Daemon} (before after : List Session) → Unharmed s t → Lasts s (ended before after t)
Unharmed-Lasts {s = s} before after u = record {
  store = subst (Adds s.store) (sym u.store) (Adds-refl s.store);
  mounts = λ q m h. (m, u.mounts q ∙ h);
  poisoned = u.poisoned;
}

module _ (b : Blake3) (prost : Prost) (platform : Platform) (now : ℕ → SystemTime)
    (d : ReplyDirectory) where
  Event-Lasts : {s t : Daemon} → Event b prost platform now d s t → Lasts s t
  Event-Lasts {s = s} (called c e) =
      subst (Lasts s) e (Grows-Lasts ((serve-Growing b prost platform c).at s))
  Event-Lasts {s = s} (started before after session op ws tree readings fuel has found empty e) =
      let (u, run, valid, same) =
        init-untouched now s.store op ws tree readings fuel session.next_file_handle empty in
      subst (Lasts s) (ap (λ r. written_back session r.1 before after s) (sym run) ∙ e) (
        written_back-Lasts session u before after s
          (subst (Adds s.store) (sym same) (Adds-refl s.store)))
  Event-Lasts {s = s} (requested before after session m u has found step e) =
      subst (Lasts s) e (written_back-Lasts session u before after s (Step-Adds b now d step))
  Event-Lasts {s = s} (broken before after session inode fh offset size has panics e) =
      subst (Lasts s) e (
        Unharmed-Lasts before after
          (read_request-Unharmed session.mountpoint inode fh offset size s))

  Reaches-Lasts : {s t : Daemon} → Reaches b prost platform now d s t → Lasts s t
  Reaches-Lasts {s = s} begin = Lasts-refl s
  Reaches-Lasts (followed r e) = Lasts-trans (Reaches-Lasts r) (Event-Lasts e)

  -- Whatever calls are made of the service, also where some of them panic, whatever requests to the
  -- mounted file systems are answered, and whatever reads there panic, in whatever order: an id that
  -- leads to a file, a symlink, a tree or a commit goes on leading to one, a path that has a mount keeps
  -- one, and a poisoned lock stays poisoned.
  pub Reaches-Stays :
      {s t : Daemon} (id path : Bytes) (l : Lock)
      → Reaches b prost platform now d s t
      → Stays (s.store.files id) (t.store.files id)
        × Stays (s.store.symlinks id) (t.store.symlinks id)
        × Stays (s.store.trees id) (t.store.trees id)
        × Stays (s.store.commits id) (t.store.commits id)
        × Stays (s.mounts path) (t.mounts path)
        × ((if s.poisoned l then t.poisoned l else true) ≡ true)
  Reaches-Stays {s = s} id path l r =
      let g = Reaches-Lasts r in
      (
        Within-Stays g.store.files id,
        Within-Stays g.store.symlinks id,
        Within-Stays g.store.trees id,
        Within-Stays g.store.commits id,
        Within-Stays g.mounts path,
        elim (Bool-cases (s.poisoned l)) [
          | inl lost ↦ rw lost (g.poisoned l lost)
          | inr free ↦ rw free refl
        ],
      )
