-- ===== src/Task/Completion.antt =====
-- A task has a completion date exactly when it is completed, under every method.
use hire_ai.Prelude.{
  ℕ, ◌≡◌, inl, inr, true, some, All, All-append, All-both, All-update_where, is_some, Bool-cases,
}
use hire_ai.Task.{Task, RequestContext}
use hire_ai.Task.Store.{Db, Result, locked_row, bump, visible_task, soft_delete, publish, get_by_id}
use hire_ai.Task.Sound.{IsConsistent, AgreesWith}
use hire_ai.Task.Command.{
  Command, run, refused, kept, changed, Outcome, in_place, inserted, deleted,
}
use hire_ai.Task.Runs.{run-Outcome}

-- The rows that still have the version that was read still have its status and completion date.
abbrev pub IsFresh : RequestContext → ℕ → Db → Db → Type 0
IsFresh ctx task_id seen db =
    (task : Task)
    → get_by_id ctx task_id seen ≡ some task
    → All (λ t. locked_row ctx task_id task.version t ≡ true → AgreesWith task t) db.tasks

soft_delete-IsConsistent :
    (ctx : RequestContext) (now task_id : ℕ) (db : Db)
    → All IsConsistent db.tasks
    → All IsConsistent (soft_delete ctx now task_id db).1.tasks
unfolding soft_delete
soft_delete-IsConsistent ctx now task_id db h =
    elim (Bool-cases (is_some (get_by_id ctx task_id db))) [
      | inl found ↦ rw found (
          All-update_where (visible_task ctx task_id) (λ t. record t { deleted_at = some now })
            IsConsistent IsConsistent db.tasks (λ x _ c. c) (λ x c. c) h)
      | inr missing ↦ rw missing h
    ]

module _ {A : Type 0} {ctx : RequestContext} {task_id : ℕ} {seen db : Db} (r : Result A × Db) where
  consistent :
      Outcome ctx task_id seen db r
      → IsFresh ctx task_id seen db
      → All IsConsistent db.tasks
      → All IsConsistent r.1.tasks
  consistent (in_place (refused e c h)) fresh before = rw h before
  consistent (in_place (kept a h)) fresh before = rw h before
  consistent (in_place (changed a task us logs evs found current sound loggable h)) fresh before =
      rw h (
        All-update_where (locked_row ctx task_id task.version) (bump us task.version)
          (λ t. (locked_row ctx task_id task.version t ≡ true → AgreesWith task t) × IsConsistent t)
          IsConsistent db.tasks (λ t locked c. sound t (c.0 locked) c.1) (λ t c. c.1)
          (All-both _ _ db.tasks (fresh task found) before))
  consistent (inserted a t log evs own good loggable h) fresh before =
      rw h (All-append IsConsistent db.tasks _ before (good, tt))
  consistent (deleted a now evs h) fresh before =
      unfold publish in rw h (soft_delete-IsConsistent ctx now task_id db before)

-- Every method keeps the invariant that a task has a completion date exactly when its status is
-- COMPLETED, provided that a row which still has the version that the method read also still has
-- the status and the completion date that it read.
pub run-IsConsistent :
    (synchronized : Task → Task → Task) (ctx : RequestContext) (task_id : ℕ) (c : Command)
    (seen db : Db)
    → IsFresh ctx task_id seen db
    → All IsConsistent db.tasks
    → All IsConsistent (run synchronized ctx task_id c seen db).1.tasks
run-IsConsistent synchronized ctx task_id c seen db =
    consistent _ (run-Outcome synchronized ctx task_id seen db c)
