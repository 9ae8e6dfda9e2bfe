-- ===== src/Task/Lifecycle.antt =====
-- The life of a task: which changes of status the methods make.
use hire_ai.Prelude.{
  ℕ, ◌≡◌, ◌≢◌, List, [], ◌∷◌, ◌++◌, All-append, count_where, update_where, refl, sym, ap, ◌∙◌, ◌⊎◌,
  inl, inr, Bool, true, false, not, some, arith, ◌==◌, if◌then◌else◌, ◌||◌,
}
use mathlib.Core.Path.{subst}
use native.Mathlib.Decide.{ℕ_discrete}
use hire_ai.Task.Sound.{Gives, plan_update_parts, plan_update-Gives, plan_update-IsSound}
use hire_ai.Task.WriteBack.{IsLoggable, write_back_stale, write_back_ok}
use hire_ai.Task.{
  Task, TaskActivityType, Metadata, TaskStatus, opened, in_progress, same_status,
  is_valid_transition, RequestContext, TaskUpdateRequest,
}
use hire_ai.Task.Store.{
  FieldUpdate, apply_updates, bump, locked_row, metadata_is_valid, Db, Result, ok, err,
  concurrent_update, get_by_id,
}
use hire_ai.Task.Update.{Changes, status_part, plan_update}
use hire_ai.Task.Service.{stamp, write_update, write_plan, update_task}
use hire_ai.Task.Outcomes.{with_task_found}

-- The diagram of `_VALID_TRANSITIONS`.
pub data Moves : TaskStatus → TaskStatus → Type 0 where
  start : Moves opened in_progress
  finish : Moves opened TaskStatus.completed
  drop : Moves opened TaskStatus.cancelled
  finish_started : Moves in_progress TaskStatus.completed
  drop_started : Moves in_progress TaskStatus.cancelled
  reopen_completed : Moves TaskStatus.completed opened
  reopen_cancelled : Moves TaskStatus.cancelled opened

Moves-is_valid_transition :
    (old new : TaskStatus)
    → (same_status new old || is_valid_transition old new) ≡ true
    → (new ≡ old) ⊎ Moves old new
Moves-is_valid_transition opened opened h = inl refl
Moves-is_valid_transition opened in_progress h = inr start
Moves-is_valid_transition opened TaskStatus.completed h = inr finish
Moves-is_valid_transition opened TaskStatus.cancelled h = inr drop
Moves-is_valid_transition in_progress opened h = cc
Moves-is_valid_transition in_progress in_progress h = inl refl
Moves-is_valid_transition in_progress TaskStatus.completed h = inr finish_started
Moves-is_valid_transition in_progress TaskStatus.cancelled h = inr drop_started
Moves-is_valid_transition TaskStatus.completed opened h = inr reopen_completed
Moves-is_valid_transition TaskStatus.completed in_progress h = cc
Moves-is_valid_transition TaskStatus.completed TaskStatus.completed h = inl refl
Moves-is_valid_transition TaskStatus.completed TaskStatus.cancelled h = cc
Moves-is_valid_transition TaskStatus.cancelled opened h = inr reopen_cancelled
Moves-is_valid_transition TaskStatus.cancelled in_progress h = cc
Moves-is_valid_transition TaskStatus.cancelled TaskStatus.completed h = cc
Moves-is_valid_transition TaskStatus.cancelled TaskStatus.cancelled h = inl refl

-- `status_part` lets nothing else through.
status_part_guard :
    (ctx : RequestContext) (now : ℕ) (task : Task) (new : TaskStatus) (ch : Changes)
    → status_part ctx now task (some new) ≡ ok ch
    → (same_status new task.status || is_valid_transition task.status new) ≡ true
unfolding status_part
status_part_guard ctx now task new ch h = ground arith

planned :
    (ctx : RequestContext) (now : ℕ) (task : Task) (request : TaskUpdateRequest)
    (synchronized : Task → Task → Task) (later task_id : ℕ) (db : Db) (t : Task)
    → (write_plan synchronized ctx later task_id task (plan_update ctx now task request) db).0
      ≡ ok t
    → (ch : Changes) × (plan_update ctx now task request ≡ ok ch)
unfolding write_plan
planned ctx now task request synchronized later task_id db t h = ground arith

version_checked :
    {A : Type 0} (b : Bool) (db : Db) (x : Result A × Db) (a : A)
    → (if not b then (err concurrent_update, db) else x).0 ≡ ok a
    → x.0 ≡ ok a
version_checked true db x a h = h
version_checked false db x a h = cc

version_kept :
    {A : Type 0} (P : Db → Type 0) (b : Bool) (db : Db) (x : Result A × Db) (a : A)
    → (if not b then (err concurrent_update, db) else x).0 ≡ ok a
    → P x.1
    → P (if not b then (err concurrent_update, db) else x).1
version_kept P true db x a h p = p
version_kept P false db x a h p = cc (h)

-- What became of the rows: none was to be written, since the status was the one read already, or those
-- with the version read were, and updates that give a row as it was read the new status.
abbrev pub StatusWritten :
    RequestContext → (task_id : ℕ) → Task → TaskStatus → (before after : Db) → Type 0
StatusWritten ctx task_id task new before after =
    ((after ≡ before) × (task.status ≡ new))
    ⊎ ((us : List FieldUpdate) × Gives new task us
        × (count_where (locked_row ctx task_id task.version) before.tasks ≢ 0)
        × (after.tasks
            ≡ update_where (locked_row ctx task_id task.version) (bump us task.version)
                before.tasks))

write_update-StatusWritten :
    (synchronized : Task → Task → Task) (ctx : RequestContext) (later task_id : ℕ) (task t : Task)
    (new : TaskStatus) (us : List FieldUpdate) (logs : List (TaskActivityType × Metadata)) (db : Db)
    → IsLoggable logs
    → Gives new task (us ++ stamp ctx later)
    → (write_update synchronized ctx later task_id task us logs db).0 ≡ ok t
    → StatusWritten ctx task_id task new db
        (write_update synchronized ctx later task_id task us logs db).1
unfolding write_update apply_updates metadata_is_valid
write_update-StatusWritten synchronized ctx later task_id task t new [] logs db loggable gives h =
    inl (refl, gives task (refl, refl))
write_update-StatusWritten synchronized ctx later task_id task t new (u ∷ us) logs db loggable gives
      h =
    elim (ℕ_discrete (count_where (locked_row ctx task_id task.version) db.tasks) 0) [
      | yes stale ↦ absurd (
          not_ok (
            sym (
              ap (λ (r : Result Task × Db). r.0)
                (write_back_stale synchronized ctx task_id task _ _ _ db stale))
            ∙ h))
      | no current ↦
          let (t', evs, e) =
            write_back_ok synchronized ctx task_id task ((u ∷ us) ++ stamp ctx later) _ _ db
              (All-append _ logs _ loggable (refl, tt)) current in
          inr (
            (u ∷ us) ++ stamp ctx later,
            gives,
            current,
            ap (λ (r : Result Task × Db). r.1.tasks) e,
          )
    ]
  where
    not_ok : ◌≡◌ {A = Result Task} (err concurrent_update) (ok t) → ⊥
    not_ok e = cc (e)

-- When `update_task` succeeds, the status asked for is the one that was read, or follows it in the
-- diagram of transitions; and either it was the one read and nothing is written, or the task's row, which
-- still had the version read, is rewritten so that its status, if it was still as read, is the new one.
pub update_task-Moves :
    (synchronized : Task → Task → Task) (ctx : RequestContext) (now later task_id : ℕ)
    (request : TaskUpdateRequest) (seen db : Db) (task t : Task) (new : TaskStatus)
    → get_by_id ctx task_id seen ≡ some task
    → request.status ≡ some new
    → (update_task synchronized ctx now later task_id request seen db).0 ≡ ok t
    → ((new ≡ task.status) ⊎ Moves task.status new)
      × StatusWritten ctx task_id task new db
          (update_task synchronized ctx now later task_id request seen db).1
unfolding update_task write_plan
update_task-Moves synchronized ctx now later task_id request seen db task t new found asked h =
    let run = with_task_found ctx task_id seen db _ task found in
    let checked = ap (λ (r : Result Task × Db). r.0) (sym run) ∙ h in
    let (ch, plan) =
      planned ctx now task request synchronized later task_id db t
        (version_checked (task.version == request.version) db _ t checked) in
    let (changes, status, _, _) = plan_update_parts ctx now task request ch plan in
    (
      Moves-is_valid_transition task.status new (
          status_part_guard ctx now task new changes
            (subst (λ o. status_part ctx now task o ≡ ok changes) asked status)),
      subst (λ (r : Result Task × Db). StatusWritten ctx task_id task new db r.1) (sym run)
          (version_kept (λ x. StatusWritten ctx task_id task new db x)
            (task.version == request.version) db _ t checked
            (subst
              (λ p.
                StatusWritten ctx task_id task new db
                  (write_plan synchronized ctx later task_id task p db).1)
              (sym plan)
              (write_update-StatusWritten synchronized ctx later task_id task t new ch.0 ch.1 db
                (plan_update-IsSound ctx now task request ch plan).1
                (plan_update-Gives ctx now task request ch new later asked plan)
                (ap (λ p. (write_plan synchronized ctx later task_id task p db).0) (sym plan)
                  ∙ version_checked (task.version == request.version) db _ t checked)))),
    )
