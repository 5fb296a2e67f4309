-- ===== src/WorkingCopy/Locked.antt =====
-- cli/src/working_copy.rs, second part: the working copy that a mutation works on.
use cultivate.Common.{Bytes, List, Run, pure, abort, gets, ◌>>=◌}
use cultivate.Daemon.{Status}
use cultivate.Jj.{Merges, MergedTreeId}
use cultivate.Client.{Server}
use cultivate.WorkingCopy
use cultivate.WorkingCopy.{
  WorkingCopy, Attached, W, on_copy, empty_cells, operation_id, tree_id, current_tree_id,
}

-- `LockedCultivateWorkingCopy`
pub record LockedWorkingCopy (ms : Merges) : Type 0 where
  pub wc : WorkingCopy ms
  pub old_operation_id : Bytes
  pub old_tree_id : MergedTreeId ms

module _ (server : Server) (lost : Status) (ms : Merges) where
  -- The copy that is mutated is another one, with empty cells, of the same client.
  unfoldable pub start_mutation :
      {E : Type 0} → WorkingCopy ms → Run server.State E (LockedWorkingCopy ms)
  unfolding operation_id tree_id
  start_mutation copy = on_copy server lost ms (empty_cells copy.working_copy_path) (do
    old_operation_id ← operation_id server lost ms
    old_tree_id ← tree_id server lost ms
    wc ← gets (λ p. p.copy)
    pure (record { wc = wc; old_operation_id = old_operation_id; old_tree_id = old_tree_id }))

  unfoldable pub snapshot :
      {E : Type 0} → LockedWorkingCopy ms → Run server.State E (MergedTreeId ms)
  unfolding WorkingCopy.snapshot
  snapshot locked =
      on_copy server lost ms locked.wc
        (do tree_state ← WorkingCopy.snapshot server lost ms; pure tree_state.tree_id)

  -- `todo!`
  unfoldable pub recover : {E : Type 0} → LockedWorkingCopy ms → Run server.State E (Unit {0})
  recover locked = abort

  -- `commit_tree` is `commit.tree()`, jj's; `todo!` follows it.
  unfoldable pub check_out :
      {E T : Type 0} → Run server.State E T → LockedWorkingCopy ms → Run server.State E (Unit {0})
  check_out commit_tree locked = do new_tree ← commit_tree; abort

  unfoldable pub reset : {E : Type 0} → LockedWorkingCopy ms → Run server.State E (Unit {0})
  reset locked = abort

  unfoldable pub sparse_patterns :
      {E : Type 0} → LockedWorkingCopy ms → Run server.State E (List Bytes)
  sparse_patterns locked = abort

  unfoldable pub set_sparse_patterns :
      {E : Type 0} → List Bytes → LockedWorkingCopy ms → Run server.State E (Unit {0})
  set_sparse_patterns patterns locked = abort

  -- The operation id is only logged.
  unfoldable pub finish :
      {E : Type 0} → Bytes → LockedWorkingCopy ms → Run server.State E (WorkingCopy ms)
  finish _ locked = pure locked.wc
