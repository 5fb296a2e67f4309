-- ===== src/Service/Control.antt =====
-- service/control.rs: `ControlService`, whose handlers are `unimplemented!()`. Its messages are
-- generated from a file that the repository does not have, so they are parameters.
use cultivate.Common.{Run, abort}
use cultivate.Daemon.{Status}

-- It has no fields.
pub record ControlService : Type 0 where

module _ {Request Reply : Type 0} where
  unfoldable pub init : Request → Run ControlService Status Reply
  init request = abort

  unfoldable pub status : Request → Run ControlService Status Reply
  status request = abort
