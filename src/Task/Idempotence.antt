-- ===== src/Task/Idempotence.antt =====
-- Completing a task twice is completing it once.
use hire_ai.Prelude.{
  ℕ, ◌≡◌, refl, sym, ap, ◌∙◌, inl, inr, Bool, true, false, not, none, some, List, [], ◌∷◌,
  update_where, count_where, find, arith, ◌==◌, if◌then◌else◌, Bool-cases, Option-cases,
}
use mathlib.Core.Path.{subst}
use native.Mathlib.Decide.{ℕ_discrete}
use hire_ai.Task.{
  Task, TaskActivityType, Metadata, DomainEvent, TaskStatus, same_status, RequestContext,
}
use hire_ai.Task.Store.{
  Db, set_completed_at, Result, ok, err, concurrent_update, task_not_found, metadata_is_valid,
  FieldUpdate, set_status, locked_row, bump, visible_task, get_by_id, apply_updates,
}
use hire_ai.Task.Update.{write_back}
use hire_ai.Task.Service.{with_task, complete_task, stamp}
use hire_ai.Task.WriteBack.{apply_updates_keys, IsLoggable, write_back_stale, write_back_ok}
use hire_ai.Task.Outcomes.{with_task_found}

-- The row that a tenant reads after its row was written.
find_visible :
    (ctx : RequestContext) (task_id : ℕ) (us : List FieldUpdate) (rows : List Task) (task : Task)
    → find (visible_task ctx task_id) rows ≡ some task
    → find
        (visible_task ctx task_id)
        (update_where (locked_row ctx task_id task.version) (bump us task.version) rows)
      ≡ some (bump us task.version task)
find_visible ctx task_id us [] task h = cc
find_visible ctx task_id us (r ∷ rows) task h =
    ground (arith, apply_updates_keys us r, find_visible ctx task_id us rows task)

read_after :
    (ctx : RequestContext) (task_id : ℕ) (db db' : Db) (task : Task) (us : List FieldUpdate)
    → get_by_id ctx task_id db ≡ some task
    → db'.tasks ≡ update_where (locked_row ctx task_id task.version) (bump us task.version) db.tasks
    → get_by_id ctx task_id db' ≡ some (bump us task.version task)
unfolding get_by_id
read_after ctx task_id db db' task us found h =
    ap (find (visible_task ctx task_id)) h ∙ find_visible ctx task_id us db.tasks task found

-- The rows after a `write_back` that succeeded.
rows_written :
    (synchronized : Task → Task → Task) (ctx : RequestContext) (task_id : ℕ) (task : Task)
    (us : List FieldUpdate) (logs : List (TaskActivityType × Metadata))
    (events : Task → List DomainEvent) (db db' : Db) (t : Task)
    → IsLoggable logs
    → write_back synchronized ctx task_id task us logs events db ≡ (ok t, db')
    → db'.tasks ≡ update_where (locked_row ctx task_id task.version) (bump us task.version) db.tasks
rows_written synchronized ctx task_id task us logs events db db' t loggable h =
    elim (ℕ_discrete (count_where (locked_row ctx task_id task.version) db.tasks) 0) [
      | yes stale ↦ cc (
          ap (λ (r : Result Task × Db). r.0)
            (sym (write_back_stale synchronized ctx task_id task us logs events db stale) ∙ h))
      | no current ↦
          let (t', evs, e) =
            write_back_ok synchronized ctx task_id task us logs events db loggable current in
          ap (λ (r : Result Task × Db). r.1.tasks) (sym h ∙ e)
    ]

version_checked :
    {A : Type 0} (b : Bool) (db : Db) (x : Result A × Db) (a : A) (db' : Db)
    → (if not b then (err concurrent_update, db) else x) ≡ (ok a, db')
    → x ≡ (ok a, db')
version_checked {A} true db x a db' h = h
version_checked {A} false db x a db' h = cc (ap (λ (r : Result A × Db). r.0) h)

module _ (synchronized : Task → Task → Task) (ctx : RequestContext) (now task_id version : ℕ) where
  complete_missing :
      (db : Db)
      → get_by_id ctx task_id db ≡ none
      → complete_task synchronized ctx now task_id version db db ≡ (err task_not_found, db)
  unfolding complete_task with_task
  complete_missing db h = rw (h, complete_task, with_task)

  completed_kept :
      (db : Db) (task : Task)
      → get_by_id ctx task_id db ≡ some task
      → same_status task.status TaskStatus.completed ≡ true
      → complete_task synchronized ctx now task_id version db db ≡ (ok task, db)
  unfolding complete_task
  completed_kept db task found done = with_task_found ctx task_id db db _ task found ∙ rw done

  complete_writes :
      (db : Db) (task : Task)
      → get_by_id ctx task_id db ≡ some task
      → same_status task.status TaskStatus.completed ≡ false
      → (t : Task) (db' : Db)
      → complete_task synchronized ctx now task_id version db db ≡ (ok t, db')
      → (t' : Task) × (get_by_id ctx task_id db' ≡ some t')
        × (same_status t'.status TaskStatus.completed ≡ true)
  unfolding complete_task apply_updates metadata_is_valid
  complete_writes db task found todo t db' h =
      let started = rw todo at (sym (with_task_found ctx task_id db db _ task found) ∙ h) in
      let rows =
        rows_written synchronized ctx task_id task _ _ _ db db' t (refl, tt)
          (version_checked (task.version == version) db _ t db' started) in
      let us : List FieldUpdate =
        set_status TaskStatus.completed ∷ set_completed_at (some now) ∷ stamp ctx now in
      (bump us task.version task, read_after ctx task_id db db' task us found rows, refl)

-- Completing a task is idempotent: after a call that succeeded, a second call by the same tenant, at
-- any later time and with any version number, succeeds, returns the completed task, and leaves the
-- database as the first call left it.
complete_task_idem :
    (synchronized : Task → Task → Task) (ctx : RequestContext)
    (now later task_id version version' : ℕ) (db db' : Db) (t : Task)
    → complete_task synchronized ctx now task_id version db db ≡ (ok t, db')
    → (t' : Task) × (same_status t'.status TaskStatus.completed ≡ true)
      × (complete_task synchronized ctx later task_id version' db' db' ≡ (ok t', db'))
complete_task_idem synchronized ctx now later task_id version version' db db' t h =
    elim (Option-cases (get_by_id ctx task_id db)) [
      | inl missing ↦ cc (
          ap (λ (r : Result Task × Db). r.0)
            (sym (complete_missing synchronized ctx now task_id version db missing) ∙ h))
      | inr (task, found) ↦ elim (Bool-cases (same_status task.status TaskStatus.completed)) [
        | inl done ↦
            let same : db ≡ db' =
              ap (λ (r : Result Task × Db). r.1)
                (sym (completed_kept synchronized ctx now task_id version db task found done)
                  ∙ h) in
            (
              task,
              done,
              subst (λ d. complete_task synchronized ctx later task_id version' d d ≡ (ok task, d))
                  same (completed_kept synchronized ctx later task_id version' db task found done),
            )
        | inr todo ↦
            let (t', found', done) =
              complete_writes synchronized ctx now task_id version db task found todo t db' h in
            (t', done, completed_kept synchronized ctx later task_id version' db' t' found' done)
      ]
    ]
