-- ===== src/Task/Update.antt =====
-- The parts of services/task_service.py that its methods share, and what `update_task` writes.
-- `synchronized before after` stands for SQLAlchemy: what the session's
-- copy of a row reads as once a bulk UPDATE has turned `before` into `after` (by the option
-- `synchronize_session` it may be either).
use hire_ai.Prelude.{
  ℕ, String, Bool, false, Option, none, some, List, [], ◌∷◌, ◌++◌, map, find, update_where,
  count_where, or_else, ltb, ◌==◌, if◌then◌else◌,
}
use hire_ai.Task.{
  Task, TaskStatus, TaskActivityType, DomainEvent, Metadata, MetaValue, null, uuid, text, names,
  RequestContext, TaskUpdateRequest, status_changed, assigned, same_status, is_valid_transition,
}
use hire_ai.Task.Store.{
  Db, Result, ok, err, ◌>>=◌, concurrent_update, validation, value_error, refresh_failed,
  reminder_not_before_due, invalid_transition, FieldUpdate, set_status, set_completed_at,
  set_assigned_to, set_title, set_description, set_priority, set_type, set_due_at, set_reminder_at,
  field_name, log_all, publish, locked_row, bump,
}

-- `str(x) if x else None`
abbrev pub uuid_or_null : Option ℕ → MetaValue
uuid_or_null none = null
uuid_or_null (some x) = uuid x

abbrev pub event : RequestContext → String → Metadata → DomainEvent
event ctx name payload = record {
  event_name = name;
  tenant_id = ctx.tenant_id;
  request_id = ctx.request_id;
  actor_id = ctx.user_id;
  payload = payload;
}

abbrev pub status_event : RequestContext → ℕ → TaskStatus → TaskStatus → DomainEvent
status_event ctx task_id old new = event ctx "task.status_changed" (
    ("task_id", uuid task_id)
    ∷ ("old_status", MetaValue.status old)
    ∷ ("new_status", MetaValue.status new)
    ∷ [])

-- `db.refresh`: the row is read again by its key.
unfoldable pub refresh : ℕ → Db → Result Task
refresh task_id db = elim (find (λ t. t.id == task_id) db.tasks) [
  | none ↦ err refresh_failed
  | some t ↦ ok t
]

-- The tail of every update: the UPDATE guarded by the version, its row count, the activities, the
-- commit, the refresh, and the events, which are built from the session's copy of the row.
unfoldable pub write_back :
    (synchronized : Task → Task → Task)
    → RequestContext
    → ℕ
    → Task
    → List FieldUpdate
    → List (TaskActivityType × Metadata)
    → (Task → List DomainEvent)
    → Db
    → Result Task × Db
write_back synchronized ctx task_id task updates logs events db =
    let db' : Db = record db {
      tasks =
          update_where (locked_row ctx task_id task.version) (bump updates task.version) db.tasks;
    } in
    if count_where (locked_row ctx task_id task.version) db.tasks == 0
    then (err concurrent_update, db)
    else elim (log_all ctx task_id logs db') [
      | none ↦ (err value_error, db')
      | some db'' ↦ elim (refresh task_id db'') [
        | err e ↦ (err e, db'')
        | ok t ↦ (ok t, publish (events (synchronized task (bump updates task.version task))) db'')
      ]
    ]

-- The check of `reminder_at` against `due_at`, with the request's value before the row's.
unfoldable pub check_dates : Option ℕ → Option ℕ → Result (Unit {0})
check_dates (some reminder_at) (some due_at) =
    if ltb reminder_at due_at then ok tt else err (validation reminder_not_before_due)
check_dates _ _ = ok tt

abbrev pub Changes : Type 0
Changes = List FieldUpdate × List (TaskActivityType × Metadata)

-- The completion date that goes with a change of status.
abbrev pub completion : ℕ → TaskStatus → TaskStatus → List FieldUpdate
completion now new old =
    if same_status new TaskStatus.completed
    then set_completed_at (some now) ∷ []
    else if same_status old TaskStatus.completed
    then set_completed_at none ∷ []
    else []

-- The part of `update_task` about `data.status`.
unfoldable pub status_part : RequestContext → ℕ → Task → Option TaskStatus → Result Changes
status_part ctx now task none = ok ([], [])
status_part ctx now task (some new) =
    if same_status new task.status
    then ok ([], [])
    else if is_valid_transition task.status new
    then ok (
      set_status new ∷ completion now new task.status,
      (
        status_changed,
        ("old_status", MetaValue.status task.status)
            ∷ ("new_status", MetaValue.status new)
            ∷ ("request_id", text ctx.request_id)
            ∷ [],
      )
          ∷ [],
    )
    else err (validation (invalid_transition task.status new))

abbrev pub same_assignee : ℕ → Option ℕ → Bool
same_assignee new none = false
same_assignee new (some old) = new == old

-- The part about `data.assigned_to`.
unfoldable pub assignee_part : RequestContext → Task → Option ℕ → Changes
assignee_part ctx task none = ([], [])
assignee_part ctx task (some new) = if same_assignee new task.assigned_to then ([], []) else (
  set_assigned_to new ∷ [],
  (
    assigned,
    ("old_assignee_id", uuid_or_null task.assigned_to)
        ∷ ("new_assignee_id", uuid new)
        ∷ ("request_id", text ctx.request_id)
        ∷ [],
  )
      ∷ [],
)

abbrev pub given {ℓ} : {A : Type ℓ} → (A → FieldUpdate) → Option A → List FieldUpdate
given set none = []
given set (some a) = set a ∷ []

-- The loop over the simple fields.
unfoldable pub simple_part : TaskUpdateRequest → List FieldUpdate
simple_part request =
    given set_title request.title
    ++ (given set_description request.description
        ++ (given set_priority request.priority
            ++ (given set_type request.type
                ++ (given set_due_at request.due_at ++ given set_reminder_at request.reminder_at))))

-- The events of `update_task`; `old` is the session's copy of the row after the UPDATE.
abbrev pub new_status_of : List FieldUpdate → Option TaskStatus
new_status_of [] = none
new_status_of (set_status s ∷ us) = some s
new_status_of (_ ∷ us) = new_status_of us

abbrev pub new_assignee_of : List FieldUpdate → Option ℕ
new_assignee_of [] = none
new_assignee_of (set_assigned_to a ∷ us) = some a
new_assignee_of (_ ∷ us) = new_assignee_of us

unfoldable pub update_events : RequestContext → ℕ → List FieldUpdate → Task → List DomainEvent
update_events ctx task_id updates old =
    elim (new_status_of updates) [
      | none ↦ []
      | some new ↦ status_event ctx task_id old.status new ∷ []
    ]
    ++ (elim (new_assignee_of updates) [
      | none ↦ []
      | some new ↦
          event ctx "task.assigned" (
            ("task_id", uuid task_id)
            ∷ ("old_assignee_id", uuid_or_null old.assigned_to)
            ∷ ("new_assignee_id", uuid new)
            ∷ [])
          ∷ []
    ]
        ++ event ctx "task.updated"
            (("task_id", uuid task_id) ∷ ("updated_fields", names (map field_name updates)) ∷ [])
          ∷ [])

-- What `update_task` writes, from the row that it read.
unfoldable pub plan_update : RequestContext → ℕ → Task → TaskUpdateRequest → Result Changes
plan_update ctx now task request = do
  _ ←
      check_dates (or_else request.reminder_at task.reminder_at)
        (or_else request.due_at task.due_at)
  changes ← status_part ctx now task request.status
  let assignee = assignee_part ctx task request.assigned_to
  ok (changes.0 ++ (assignee.0 ++ simple_part request), changes.1 ++ assignee.1)
