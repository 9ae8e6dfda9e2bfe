-- ===== src/Task/Command.antt =====
-- The methods of the service as one step of the database, and what a step can have done.
use hire_ai.Prelude.{ℕ, ◌≡◌, ◌≢◌, some, List, [], ◌∷◌, ◌++◌, count_where}
use hire_ai.Task.{
  Task, TaskActivityType, Metadata, DomainEvent, RequestContext, TaskCreateRequest,
  TaskUpdateRequest,
}
use hire_ai.Task.Store.{
  Db, Result, ok, err, TaskError, value_error, refresh_failed, FieldUpdate, get_by_id, soft_delete,
  publish, locked_row,
}
use hire_ai.Task.Service.{
  create_task, update_task, complete_task, reopen_task, cancel_task, soft_delete_task,
}
use hire_ai.Task.WriteBack.{IsLoggable, activity, written}
use hire_ai.Task.Sound.{IsConsistent, IsSound}

-- A call of the service. The numbers are clock readings, the new key, and the version sent.
pub data Command : Type 0 where
  create_cmd : (now new_id : ℕ) → TaskCreateRequest → Command
  update_cmd : (now later : ℕ) → TaskUpdateRequest → Command
  complete_cmd : (now version : ℕ) → Command
  reopen_cmd : (now version : ℕ) → Command
  cancel_cmd : (now version : ℕ) → Command
  delete_cmd : (now : ℕ) → Command

-- The reply without its value.
abbrev pub forget {ℓ} : {A : Type ℓ} → Result A × Db → Result (Unit {0}) × Db
forget (ok a, db) = (ok tt, db)
forget (err e, db) = (err e, db)

-- The exceptions that a client can meet.
abbrev pub IsClientError : TaskError → Type 0
IsClientError value_error = ⊥
IsClientError refresh_failed = ⊥
IsClientError _ = Unit

module _ (synchronized : Task → Task → Task) (ctx : RequestContext) (task_id : ℕ) where
  -- The exception forget, if any, and the database left behind.
  abbrev pub run : Command → (seen db : Db) → Result (Unit {0}) × Db
  run (create_cmd now new_id request) seen db = forget (create_task ctx now new_id request seen db)
  run (update_cmd now later request) seen db =
      forget (update_task synchronized ctx now later task_id request seen db)
  run (complete_cmd now version) seen db =
      forget (complete_task synchronized ctx now task_id version seen db)
  run (reopen_cmd now version) seen db =
      forget (reopen_task synchronized ctx now task_id version seen db)
  run (cancel_cmd now version) seen db =
      forget (cancel_task synchronized ctx now task_id version seen db)
  run (delete_cmd now) seen db = forget (soft_delete_task ctx now task_id seen db)

-- What a method on an existing task did: it is refused, it finds nothing to do, or it writes.
pub data InPlace {A : Type 0} (ctx : RequestContext) (task_id : ℕ) (seen db : Db)
    (r : Result A × Db) : Type 0 where
  refused : (e : TaskError) → IsClientError e → r ≡ (err e, db) → InPlace ctx task_id seen db r
  kept : (a : A) → r ≡ (ok a, db) → InPlace ctx task_id seen db r
  changed :
      (a : A) (task : Task) (us : List FieldUpdate) (logs : List (TaskActivityType × Metadata))
      (evs : List DomainEvent)
      → get_by_id ctx task_id seen ≡ some task
      → count_where (locked_row ctx task_id task.version) db.tasks ≢ 0
      → IsSound task us
      → IsLoggable logs
      → r ≡ (ok a, written ctx task_id task us logs evs db)
      → InPlace ctx task_id seen db r

-- What any method did.
pub data Outcome {A : Type 0} (ctx : RequestContext) (task_id : ℕ) (seen db : Db)
    (r : Result A × Db) : Type 0 where
  in_place : InPlace ctx task_id seen db r → Outcome ctx task_id seen db r
  inserted :
      (a : A) (t : Task) (log : TaskActivityType × Metadata) (evs : List DomainEvent)
      → t.organization_id ≡ ctx.tenant_id
      → IsConsistent t
      → IsLoggable (log ∷ [])
      → r ≡ (
        ok a,
        record db {
          tasks = db.tasks ++ t ∷ [];
          activities = db.activities ++ activity ctx t.id log ∷ [];
          published = db.published ++ evs;
        },
      )
      → Outcome ctx task_id seen db r
  deleted :
      (a : A) (now : ℕ) (evs : List DomainEvent)
      → r ≡ (ok a, publish evs (soft_delete ctx now task_id db).1)
      → Outcome ctx task_id seen db r

-- The methods that update a row.
abbrev pub IsUpdate : Command → Type 0
IsUpdate (create_cmd _ _ _) = ⊥
IsUpdate (delete_cmd _) = ⊥
IsUpdate _ = Unit
