-- ===== src/Daemon/Grows.antt =====
-- What a state of the daemon keeps for ever: objects and mounts do not vanish, and a poisoned lock
-- stays poisoned. With a rule for each call that handlers are made of.
use cultivate.Common.{
  ◌≡◌, refl, Bool, true, false, Option, none, some, Bytes, bytes_eq, bytes_key, Outcome, ok, err,
  panic, Run, pure, throw, abort, unwrap, assert, gets, modify, ◌>>=◌, continue, Bool-cases, inl,
  inr,
}
use cultivate.HashMap
use cultivate.HashMap.{HashMap}
use cultivate.Mount
use cultivate.Mount.{Mount}
use cultivate.Daemon.{Daemon, D, Status, with_lock, locked, unlock, on_mount, on_found}
use cultivate.Daemon.Locks.{Lock, lock_eq}
use cultivate.Daemon.Origins.{
  Alike, Alike-refl, Origins, Origins-refl, Origin-before, insert-Origins, kept,
}

-- Every key of the first map is one of the second.
abbrev pub Within : {V : Type 0} → HashMap Bytes V → HashMap Bytes V → Type 0
Within {V} m n = (k : Bytes) (v : V) → m k ≡ some v → (w : V) × (n k ≡ some w)

pub record Grows (s t : Daemon) : Type 0 where
  pub poisoned : (l : Lock) → s.poisoned l ≡ true → t.poisoned l ≡ true
  pub files : Within s.store.files t.store.files
  pub symlinks : Within s.store.symlinks t.store.symlinks
  pub trees : Within s.store.trees t.store.trees
  pub commits : Within s.store.commits t.store.commits
  pub mounts : Within s.mounts t.mounts
  pub origins : Origins s t

pub Grows-refl : (s : Daemon) → Grows s s
Grows-refl s = record {
  poisoned = λ l h. h;
  files = λ k v h. (v, h);
  symlinks = λ k v h. (v, h);
  trees = λ k v h. (v, h);
  commits = λ k v h. (v, h);
  mounts = λ k v h. (v, h);
  origins = Origins-refl s;
}

pub Within-trans : {V : Type 0} {m n o : HashMap Bytes V} → Within m n → Within n o → Within m o
Within-trans p q k v h = let (w, found) = p k v h in q k w found

pub Grows-trans : {s t u : Daemon} → Grows s t → Grows t u → Grows s u
Grows-trans p q = record {
  poisoned = λ l h. q.poisoned l (p.poisoned l h);
  files = Within-trans p.files q.files;
  symlinks = Within-trans p.symlinks q.symlinks;
  trees = Within-trans p.trees q.trees;
  commits = Within-trans p.commits q.commits;
  mounts = Within-trans p.mounts q.mounts;
  origins = λ path n h. Origin-before path n p.origins (q.origins path n h);
}

pub insert-Within :
    {V : Type 0} (j : Bytes) (x : V) (m : HashMap Bytes V) → Within m (HashMap.insert j x m)
insert-Within j x m k v h = elim (Bool-cases (bytes_eq j k)) [
  | inl same ↦ (x, rw same refl)
  | inr other ↦ (v, rw other h)
]

pub Within-refl : {V : Type 0} (m : HashMap Bytes V) → Within m m
Within-refl m k v h = (v, h)

-- The call only adds, whatever its outcome.
pub record Growing {A : Type 0} (m : D A) : Type 0 where
  pub at : (s : Daemon) → Grows s (m s).1

with_mounts :
    (path : Bytes) (mount old : Mount) (s : Daemon)
    → s.mounts path ≡ some old
    → Alike old mount
    → Grows s (record s { mounts = HashMap.insert path mount s.mounts })
with_mounts path mount old s found alike = record {
  poisoned = λ l h. h;
  files = Within-refl s.store.files;
  symlinks = Within-refl s.store.symlinks;
  trees = Within-refl s.store.trees;
  commits = Within-refl s.store.commits;
  mounts = insert-Within path mount s.mounts;
  origins = insert-Origins path mount s (kept old found alike);
}

-- A call of a mount that leaves its inodes and directories, whatever its outcome.
pub record Leaving {A : Type 0} (f : Run Mount Status A) : Type 0 where
  pub at : (m : Mount) → Alike m (f m).1

module _ {A : Type 0} where
  pub Growing-pure : (a : A) → Growing (pure {S = Daemon} {E = Status} a)
  Growing-pure a = record { at = Grows-refl }

  pub Growing-throw : (e : Status) → Growing (throw {A = A} e)
  Growing-throw e = record { at = Grows-refl }

  pub Growing-abort : Growing (abort {A = A})
  Growing-abort = record { at = Grows-refl }

  pub Growing-unwrap : (o : Option A) → Growing (unwrap o)
  Growing-unwrap none = record { at = Grows-refl }
  Growing-unwrap (some a) = record { at = Grows-refl }

  pub Growing-gets : (f : Daemon → A) → Growing (gets f)
  Growing-gets f = record { at = Grows-refl }

  unlock-Grows :
      (l : Lock) (s : Daemon) (p : Outcome Status A × Daemon) → Grows s p.1 → Grows s (unlock l p).1
  unlock-Grows l s (ok a, t) g = g
  unlock-Grows l s (err e, t) g = g
  unlock-Grows l s (panic, t) g = record {
    poisoned = λ k h. elim (Bool-cases (lock_eq l k)) [
      | inl same ↦ rw same refl
      | inr other ↦ rw other (g.poisoned k h)
    ];
    files = g.files;
    symlinks = g.symlinks;
    trees = g.trees;
    commits = g.commits;
    mounts = g.mounts;
    origins = g.origins;
  }

  locked-Grows :
      (b : Bool) (l : Lock) (m : D A) (s : Daemon) → Grows s (m s).1 → Grows s (locked b l m s).1
  locked-Grows true l m s g = Grows-refl s
  locked-Grows false l m s g = unlock-Grows l s (m s) g

  pub Growing-with_lock : (l : Lock) (m : D A) → Growing m → Growing (with_lock l m)
  unfolding with_lock
  Growing-with_lock l m g = record { at = λ s. locked-Grows (s.poisoned l) l m s (g.at s) }

  on_found-Grows :
      (o : Option Mount) (path : Bytes) (f : Run Mount Status A) (s : Daemon)
      → s.mounts path ≡ o
      → Leaving f
      → Grows s (on_found o path f s).1
  on_found-Grows none path f s found l = Grows-refl s
  on_found-Grows (some m) path f s found l = with_mounts path (f m).1 m s found (l.at m)

  pub Growing-on_mount :
      (path : Bytes) (f : Run Mount Status A) → Leaving f → Growing (on_mount path f)
  unfolding on_mount
  Growing-on_mount path f l = record { at = λ s. on_found-Grows (s.mounts path) path f s refl l }

module _ {A B : Type 0} where
  continue-Grows :
      (s : Daemon) (r : Outcome Status A) (t : Daemon) (f : A → D B)
      → Grows s t
      → ((a : A) → Growing (f a))
      → Grows s (continue r f t).1
  continue-Grows s (ok a) t f g h = Grows-trans g ((h a).at t)
  continue-Grows s (err e) t f g h = g
  continue-Grows s panic t f g h = g

  pub Growing-bind :
      (m : D A) (f : A → D B) → Growing m → ((a : A) → Growing (f a)) → Growing (m >>= f)
  unfolding ◌>>=◌
  Growing-bind m f g h = record { at = λ s. continue-Grows s (m s).0 (m s).1 f (g.at s) h }

pub Growing-assert : (b : Bool) → Growing (assert b)
Growing-assert true = record { at = Grows-refl }
Growing-assert false = record { at = Grows-refl }

pub Growing-modify : (f : Daemon → Daemon) → ((s : Daemon) → Grows s (f s)) → Growing (modify f)
Growing-modify f g = record { at = g }

pub get_tree_id-Leaving : Leaving Mount.get_tree_id
unfolding Mount.get_tree_id
get_tree_id-Leaving = record { at = Alike-refl }

unwrap-Alike : {A : Type 0} (o : Option A) (m : Mount) → Alike m (unwrap {E = Status} o m).1
unwrap-Alike none m = Alike-refl m
unwrap-Alike (some a) m = Alike-refl m

pub get_op_id-Leaving : Leaving Mount.get_op_id
unfolding Mount.get_op_id ◌>>=◌
get_op_id-Leaving = record { at = λ m. unwrap-Alike m.op_id m }

pub get_workspace_id-Leaving : Leaving Mount.get_workspace_id
unfolding Mount.get_workspace_id ◌>>=◌
get_workspace_id-Leaving = record { at = λ m. unwrap-Alike m.workspace_id m }

pub set_op_id-Leaving : (op : Bytes) → Leaving (Mount.set_op_id op)
unfolding Mount.set_op_id
set_op_id-Leaving op = record {
  at = λ m. record { nodes = refl; directories = refl; next_inode = refl };
}

pub set_workspace_id-Leaving : (op : Bytes) → Leaving (Mount.set_workspace_id op)
unfolding Mount.set_workspace_id
set_workspace_id-Leaving op = record {
  at = λ m. record { nodes = refl; directories = refl; next_inode = refl };
}

-- The rules for all but `modify`.
pub ruleset growing = (
  Growing-pure, Growing-throw, Growing-abort, Growing-unwrap, Growing-gets, Growing-with_lock,
  Growing-on_mount, Growing-bind, Growing-assert, get_tree_id-Leaving, get_op_id-Leaving,
  get_workspace_id-Leaving, set_op_id-Leaving, set_workspace_id-Leaving,
)
