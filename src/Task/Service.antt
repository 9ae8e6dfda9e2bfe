-- ===== src/Task/Service.antt =====
-- services/task_service.py, the methods. `seen` is the state in which a method's SELECT runs, the
-- last argument the one in which its writes run; `synchronized` is explained in Update. An
-- assignee is an existing user, as the foreign key demands, and all instants have a time zone.
use hire_ai.Prelude.{ℕ, not, none, some, List, [], ◌∷◌, ◌++◌, map, ◌==◌, if◌then◌else◌}
use hire_ai.Task.{
  Task, DomainEvent, TaskStatus, TaskActivityType, Metadata, uuid, text, instant, names,
  RequestContext, TaskCreateRequest, TaskUpdateRequest, opened, created, updated, reopened,
  same_status,
}
use hire_ai.Task.Store.{
  Db, Result, ok, err, lead_not_found, task_not_found, concurrent_update, validation, value_error,
  cancel_completed, FieldUpdate, set_status, set_completed_at, set_last_activity_at, set_updated_by,
  field_name, get_lead_by_id, get_by_id, create, soft_delete, log_activity, publish,
}
use hire_ai.Task.Update.{
  uuid_or_null, event, status_event, Changes, write_back, plan_update, update_events,
}

-- The `Task(…)` of `create_task`; `new_id` is the generated key.
abbrev pub new_task : RequestContext → ℕ → ℕ → TaskCreateRequest → Task
new_task ctx now new_id request = record {
  id = new_id;
  organization_id = ctx.tenant_id;
  lead_id = request.lead_id;
  created_by = ctx.user_id;
  updated_by = ctx.user_id;
  assigned_to = request.assigned_to;
  title = request.title;
  description = request.description;
  status = opened;
  priority = request.priority;
  type = request.type;
  version = 1;
  due_at = request.due_at;
  completed_at = none;
  reminder_at = request.reminder_at;
  last_activity_at = now;
  deleted_at = none;
}

abbrev pub created_log : RequestContext → TaskCreateRequest → TaskActivityType × Metadata
created_log ctx request = (
  created,
  ("assigned_to", uuid_or_null request.assigned_to) ∷ ("request_id", text ctx.request_id) ∷ [],
)

abbrev pub created_event : RequestContext → ℕ → TaskCreateRequest → DomainEvent
created_event ctx new_id request = event ctx "task.created" (
    ("task_id", uuid new_id)
    ∷ ("lead_id", uuid request.lead_id)
    ∷ ("assigned_to", uuid_or_null request.assigned_to)
    ∷ [])

-- `create_task`
unfoldable pub create_task :
    RequestContext → ℕ → ℕ → TaskCreateRequest → (seen : Db) → Db → Result Task × Db
create_task ctx now new_id request seen db = elim (get_lead_by_id ctx request.lead_id seen) [
  | none ↦ (err lead_not_found, db)
  | some lead ↦
      let task = new_task ctx now new_id request in
      let log = created_log ctx request in
      elim (log_activity ctx new_id log.0 log.1 (create task db)) [
        | none ↦ (err value_error, create task db)
        | some db' ↦ (ok task, publish (created_event ctx new_id request ∷ []) db')
      ]
]

-- What an update writes after the fields that were asked for.
abbrev pub stamp : RequestContext → ℕ → List FieldUpdate
stamp ctx now = set_last_activity_at now ∷ set_updated_by ctx.user_id ∷ []

-- The opening of every method: the row is read, and a missing one raises `TaskNotFoundException`.
unfoldable pub with_task {ℓ} :
    {A : Type ℓ} → RequestContext → ℕ → (seen : Db) → Db → (Task → Result A × Db) → Result A × Db
with_task ctx task_id seen db method = elim (get_by_id ctx task_id seen) [
  | none ↦ (err task_not_found, db)
  | some task ↦ method task
]

module _ (synchronized : Task → Task → Task) where
  -- The branch `if updates:` of `update_task`.
  unfoldable pub write_update :
      RequestContext
      → ℕ
      → ℕ
      → Task
      → List FieldUpdate
      → List (TaskActivityType × Metadata)
      → Db
      → Result Task × Db
  write_update ctx now task_id task [] logs db = (ok task, db)
  write_update ctx now task_id task (u ∷ us) logs db =
      let updates = (u ∷ us) ++ stamp ctx now in
      write_back synchronized ctx task_id task updates
        (logs
          ++ (
            updated,
            ("updated_fields", names (map field_name updates))
                ∷ ("request_id", text ctx.request_id)
                ∷ [],
          )
            ∷ [])
        (update_events ctx task_id updates) db

  unfoldable pub write_plan : RequestContext → ℕ → ℕ → Task → Result Changes → Db → Result Task × Db
  write_plan ctx later task_id task (err e) db = (err e, db)
  write_plan ctx later task_id task (ok changes) db =
      write_update ctx later task_id task changes.0 changes.1 db

  -- `update_task`. The clock is read twice: for the completion date, and for the last activity.
  unfoldable pub update_task :
      RequestContext → (now later : ℕ) → ℕ → TaskUpdateRequest → (seen : Db) → Db → Result Task × Db
  update_task ctx now later task_id request seen db = with_task ctx task_id seen db λ task.
      if not (task.version == request.version)
      then (err concurrent_update, db)
      else write_plan ctx later task_id task (plan_update ctx now task request) db

  -- `complete_task`
  unfoldable pub complete_task :
      RequestContext → (now : ℕ) → ℕ → (version : ℕ) → (seen : Db) → Db → Result Task × Db
  complete_task ctx now task_id version seen db = with_task ctx task_id seen db λ task.
      if same_status task.status TaskStatus.completed
      then (ok task, db)
      else if not (task.version == version)
      then (err concurrent_update, db)
      else write_back synchronized ctx task_id task
          (set_status TaskStatus.completed ∷ set_completed_at (some now) ∷ stamp ctx now)
          ((
            TaskActivityType.completed,
            ("completed_at", instant now) ∷ ("request_id", text ctx.request_id) ∷ [],
          )
            ∷ [])
          (λ old. status_event ctx task_id old.status TaskStatus.completed ∷ []) db

  -- `reopen_task`
  unfoldable pub reopen_task :
      RequestContext → (now : ℕ) → ℕ → (version : ℕ) → (seen : Db) → Db → Result Task × Db
  reopen_task ctx now task_id version seen db = with_task ctx task_id seen db λ task.
      if same_status task.status opened
      then (ok task, db)
      else if not (task.version == version)
      then (err concurrent_update, db)
      else write_back synchronized ctx task_id task
          (set_status opened ∷ set_completed_at none ∷ stamp ctx now)
          ((reopened, ("request_id", text ctx.request_id) ∷ []) ∷ [])
          (λ old. status_event ctx task_id old.status opened ∷ []) db

  -- `cancel_task`
  unfoldable pub cancel_task :
      RequestContext → (now : ℕ) → ℕ → (version : ℕ) → (seen : Db) → Db → Result Task × Db
  cancel_task ctx now task_id version seen db = with_task ctx task_id seen db λ task.
      if same_status task.status TaskStatus.cancelled
      then (ok task, db)
      else if same_status task.status TaskStatus.completed
      then (err (validation cancel_completed), db)
      else if not (task.version == version)
      then (err concurrent_update, db)
      else write_back synchronized ctx task_id task
          (set_status TaskStatus.cancelled ∷ stamp ctx now)
          ((TaskActivityType.cancelled, ("request_id", text ctx.request_id) ∷ []) ∷ [])
          (λ old. status_event ctx task_id old.status TaskStatus.cancelled ∷ []) db

-- `soft_delete_task`: the repository reads the row once more before it writes.
unfoldable pub soft_delete_task :
    RequestContext → (now : ℕ) → ℕ → (seen : Db) → Db → Result (Unit {0}) × Db
soft_delete_task ctx now task_id seen db = with_task ctx task_id seen db λ task. (
  ok tt,
  publish (event ctx "task.deleted" (("task_id", uuid task_id) ∷ []) ∷ [])
      (soft_delete ctx now task_id db).1,
)
