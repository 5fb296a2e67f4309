-- ===== src/Daemon/Locks.antt =====
-- The mutexes that handlers hold across code that may panic: those of store.rs and repo_manager.rs,
-- and the two of each mount whose getters `unwrap`.
use cultivate.Common.{◌≡◌, refl, Bool, true, false, Bytes, bytes_eq, bytes_eq_iff}

pub data Lock : Type 0 where
  commits_lock files_lock symlinks_lock trees_lock mounts_lock fuse_sessions_lock : Lock
  op_id_lock : Bytes → Lock
  workspace_id_lock : Bytes → Lock

abbrev pub lock_eq : Lock → Lock → Bool
lock_eq commits_lock commits_lock = true
lock_eq files_lock files_lock = true
lock_eq symlinks_lock symlinks_lock = true
lock_eq trees_lock trees_lock = true
lock_eq mounts_lock mounts_lock = true
lock_eq fuse_sessions_lock fuse_sessions_lock = true
lock_eq (op_id_lock p) (op_id_lock q) = bytes_eq p q
lock_eq (workspace_id_lock p) (workspace_id_lock q) = bytes_eq p q
lock_eq _ _ = false

pub lock_eq_refl : (l : Lock) → lock_eq l l ≡ true
lock_eq_refl commits_lock = refl
lock_eq_refl files_lock = refl
lock_eq_refl symlinks_lock = refl
lock_eq_refl trees_lock = refl
lock_eq_refl mounts_lock = refl
lock_eq_refl fuse_sessions_lock = refl
lock_eq_refl (op_id_lock p) = (bytes_eq_iff p p).1 refl
lock_eq_refl (workspace_id_lock p) = (bytes_eq_iff p p).1 refl
