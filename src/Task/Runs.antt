-- ===== src/Task/Runs.antt =====
-- Every call of the service has one of the outcomes of Command, which is all that the laws of the
-- component need to know of it.
use hire_ai.Prelude.{ℕ, ap}
use hire_ai.Task.{Task, RequestContext}
use hire_ai.Task.Store.{Db, Result}
use hire_ai.Task.Command.{
  Command, create_cmd, update_cmd, complete_cmd, reopen_cmd, cancel_cmd, delete_cmd, forget, run,
  IsUpdate, InPlace, in_place, Outcome, refused, kept, inserted, changed, deleted,
}
use hire_ai.Task.Outcomes.{
  create-Outcome, update_outcome, complete_outcome, reopen_outcome, cancel_outcome, delete-Outcome,
}

module _ {A : Type 0} (ctx : RequestContext) (task_id : ℕ) (seen db : Db) (r : Result A × Db) where
  InPlace-forget : InPlace ctx task_id seen db r → InPlace ctx task_id seen db (forget r)
  InPlace-forget (refused e c h) = refused e c (ap forget h)
  InPlace-forget (kept a h) = kept tt (ap forget h)
  InPlace-forget (changed a task us logs evs found current sound loggable h) =
      changed tt task us logs evs found current sound loggable (ap forget h)

  Outcome-forget : Outcome ctx task_id seen db r → Outcome ctx task_id seen db (forget r)
  Outcome-forget (in_place o) = in_place (InPlace-forget o)
  Outcome-forget (inserted a t log evs own fresh loggable h) =
      inserted tt t log evs own fresh loggable (ap forget h)
  Outcome-forget (deleted a now evs h) = deleted tt now evs (ap forget h)

module _ (synchronized : Task → Task → Task) (ctx : RequestContext) (task_id : ℕ)
    (seen db : Db) where
  -- The methods on an existing task.
  pub run-InPlace :
      (c : Command)
      → IsUpdate c
      → InPlace ctx task_id seen db (run synchronized ctx task_id c seen db)
  run-InPlace (create_cmd now new_id request) h = absurd h
  run-InPlace (update_cmd now later request) h =
      InPlace-forget ctx task_id seen db _
        (update_outcome synchronized ctx task_id seen db now later request)
  run-InPlace (complete_cmd now version) h =
      InPlace-forget ctx task_id seen db _
        (complete_outcome synchronized ctx task_id seen db now version)
  run-InPlace (reopen_cmd now version) h =
      InPlace-forget ctx task_id seen db _
        (reopen_outcome synchronized ctx task_id seen db now version)
  run-InPlace (cancel_cmd now version) h =
      InPlace-forget ctx task_id seen db _
        (cancel_outcome synchronized ctx task_id seen db now version)
  run-InPlace (delete_cmd now) h = absurd h

  -- Whatever the call, and whatever was committed between its read and its writes.
  pub run-Outcome :
      (c : Command) → Outcome ctx task_id seen db (run synchronized ctx task_id c seen db)
  run-Outcome (create_cmd now new_id request) =
      Outcome-forget ctx task_id seen db _ (create-Outcome ctx task_id seen db now new_id request)
  run-Outcome (delete_cmd now) =
      Outcome-forget ctx task_id seen db _ (delete-Outcome ctx task_id seen db now)
  run-Outcome (update_cmd now later request) =
      in_place (run-InPlace (update_cmd now later request) tt)
  run-Outcome (complete_cmd now version) = in_place (run-InPlace (complete_cmd now version) tt)
  run-Outcome (reopen_cmd now version) = in_place (run-InPlace (reopen_cmd now version) tt)
  run-Outcome (cancel_cmd now version) = in_place (run-InPlace (cancel_cmd now version) tt)
