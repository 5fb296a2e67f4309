-- ===== src/Daemon/Origins.antt =====
-- Where the mounts of a daemon come from, across a call.
use cultivate.Common.{
  ◌≡◌, refl, some, Bytes, bytes_eq, bytes_key, Bool-cases, inl, inr, bytes_eq_iff, ◌∙◌,
}
use mathlib.Core.Path.{subst}
use mathlib.Core.Option.{some-injective}
use cultivate.HashMap
use cultivate.HashMap.{HashMap}
use cultivate.Mount.{Mount}
use cultivate.Daemon.{Daemon}

-- A mount with the same inodes and directories.
pub record Alike (m n : Mount) : Type 0 where
  pub nodes : n.nodes ≡ m.nodes
  pub directories : n.directories ≡ m.directories
  pub next_inode : n.next_inode ≡ m.next_inode

pub Alike-refl : (m : Mount) → Alike m m
Alike-refl m = record { nodes = refl; directories = refl; next_inode = refl }

-- Where the mount `n` at a path comes from: it was there before, or is new and bare.
pub data Origin (s : Daemon) (path : Bytes) (n : Mount) : Type 0 where
  kept : (m : Mount) → s.mounts path ≡ some m → Alike m n → Origin s path n
  bare : n.nodes ≡ HashMap.empty → n.directories ≡ HashMap.empty → Origin s path n

abbrev pub Origins : Daemon → Daemon → Type 0
Origins s t = (path : Bytes) (n : Mount) → t.mounts path ≡ some n → Origin s path n

pub Origins-refl : (s : Daemon) → Origins s s
Origins-refl s path n h = kept n h (Alike-refl n)

-- A mount alike to one that comes from there.
Origin-Alike :
    {s : Daemon} (path : Bytes) (m n : Mount) → Alike m n → Origin s path m → Origin s path n
Origin-Alike path m n a (bare nodes directories) =
    bare (a.nodes ∙ nodes) (a.directories ∙ directories)
Origin-Alike path m n a (kept l g c) = kept l g (record {
  nodes = a.nodes ∙ c.nodes;
  directories = a.directories ∙ c.directories;
  next_inode = a.next_inode ∙ c.next_inode;
})

pub Origin-before :
    {s t : Daemon} (path : Bytes) (n : Mount) → Origins s t → Origin t path n → Origin s path n
Origin-before path n p (bare nodes directories) = bare nodes directories
Origin-before path n p (kept m h a) = Origin-Alike path m n a (p path m h)

-- What comes of putting a mount at a path.
pub insert-Origins :
    (path : Bytes) (mount : Mount) (s : Daemon)
    → Origin s path mount
    → (q : Bytes) (n : Mount) → HashMap.insert path mount s.mounts q ≡ some n
    → Origin s q n
insert-Origins path mount s o q n h = elim (Bool-cases (bytes_eq path q)) [
  | inl same ↦
      subst (λ k. Origin s k n) ((bytes_eq_iff path q).0 same)
        (subst (Origin s path) (some-injective _ _ (rw same at h)) o)
  | inr other ↦ kept n (rw other at h) (Alike-refl n)
]
