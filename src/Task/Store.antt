-- ===== src/Task/Store.antt =====
-- The database as the task service sees it, its result type, and the repositories
-- (repositories/task_repository.py, repositories/task_activity_repository.py, and `get_by_id` of
-- repositories/lead_repository.py). A method gets the state in which its SELECT ran and the state
-- in which its writes run: between the two, other transactions may have committed.
use hire_ai.Prelude.{
  ℕ, ◌+◌, String, Bool, true, false, not, ◌&&◌, Option, none, some, List, [], ◌∷◌, ◌++◌, any, find,
  update_where, count_where, is_some, ◌==◌, str_eq, if◌then◌else◌,
}
use hire_ai.Task.{
  Task, TaskActivity, TaskActivityType, TaskStatus, TaskPriority, TaskType, DomainEvent, Metadata,
  RequestContext, status_changed, assigned,
}

pub data ValidationError : Type 0 where
  reminder_not_before_due : ValidationError
  invalid_transition : TaskStatus → TaskStatus → ValidationError
  cancel_completed : ValidationError

pub data TaskError : Type 0 where
  lead_not_found task_not_found concurrent_update : TaskError
  validation : ValidationError → TaskError
  value_error : TaskError  -- raised by `_log_activity`
  refresh_failed : TaskError  -- raised by `db.refresh` on a row that is gone

pub data Result {ℓ} (A : Type ℓ) : Type ℓ where
  ok : A → Result A
  err : TaskError → Result A

infixl 5 ◌>>=◌
abbrev pub ◌>>=◌ {ℓ κ} : {A : Type ℓ} {B : Type κ} → Result A → (A → Result B) → Result B
ok a >>= f = f a
err e >>= f = err e

-- What `lead_repo.get_by_id` reads of a lead.
pub record LeadRow : Type 0 where
  pub id : ℕ
  pub organization_id : ℕ
  pub deleted_at : Option ℕ

pub record Db : Type 0 where
  pub leads : List LeadRow
  pub tasks : List Task
  pub activities : List TaskActivity
  pub published : List DomainEvent

abbrev pub visible_lead : RequestContext → ℕ → LeadRow → Bool
visible_lead ctx lead_id l =
    l.id == lead_id && (l.organization_id == ctx.tenant_id && not (is_some l.deleted_at))

abbrev pub visible_task : RequestContext → ℕ → Task → Bool
visible_task ctx task_id t =
    t.id == task_id && (t.organization_id == ctx.tenant_id && not (is_some t.deleted_at))

-- `LeadRepository.get_by_id`
unfoldable pub get_lead_by_id : RequestContext → ℕ → Db → Option LeadRow
get_lead_by_id ctx lead_id db = find (visible_lead ctx lead_id) db.leads

-- `TaskRepository.get_by_id`
unfoldable pub get_by_id : RequestContext → ℕ → Db → Option Task
get_by_id ctx task_id db = find (visible_task ctx task_id) db.tasks

-- `TaskRepository.create`
unfoldable pub create : Task → Db → Db
create task db = record db { tasks = db.tasks ++ task ∷ [] }

-- `TaskRepository.soft_delete`: the row is read and written in one go.
unfoldable pub soft_delete : RequestContext → ℕ → ℕ → Db → Bool × Db
unfolding get_by_id
soft_delete ctx now task_id db =
    if is_some (get_by_id ctx task_id db)
    then (
      true,
      record db {
        tasks =
            update_where (visible_task ctx task_id) (λ t. record t { deleted_at = some now })
              db.tasks;
      },
    )
    else (false, db)

abbrev pub active_for_lead : RequestContext → ℕ → Task → Bool
active_for_lead ctx lead_id t =
    t.lead_id == lead_id && (t.organization_id == ctx.tenant_id && not (is_some t.deleted_at))

-- `TaskRepository.soft_delete_for_lead`, with its row count
unfoldable pub soft_delete_for_lead : RequestContext → ℕ → ℕ → Db → ℕ × Db
soft_delete_for_lead ctx now lead_id db = (
  count_where (active_for_lead ctx lead_id) db.tasks,
  record db {
    tasks =
        update_where (active_for_lead ctx lead_id) (λ t. record t { deleted_at = some now })
          db.tasks;
  },
)

-- `key in metadata`
abbrev pub has_key : String → Metadata → Bool
has_key key metadata = any (λ (k, v). str_eq k key) metadata

-- The checks of `_log_activity`, in its order.
unfoldable pub metadata_is_valid : TaskActivityType → Metadata → Bool
metadata_is_valid status_changed m =
    (has_key "old_status" m && has_key "new_status" m) && has_key "request_id" m
metadata_is_valid assigned m =
    (has_key "old_assignee_id" m && has_key "new_assignee_id" m) && has_key "request_id" m
metadata_is_valid TaskActivityType.completed m = has_key "completed_at" m && has_key "request_id" m
metadata_is_valid _ m = has_key "request_id" m

-- `_log_activity`: `none` is the `ValueError`.
unfoldable pub log_activity : RequestContext → ℕ → TaskActivityType → Metadata → Db → Option Db
log_activity ctx task_id activity_type metadata db =
    if metadata_is_valid activity_type metadata
    then some (record db {
      activities =
          db.activities
          ++ record {
            task_id = task_id;
            actor_id = ctx.user_id;
            activity_type = activity_type;
            event_metadata = metadata;
          }
            ∷ [];
    })
    else none

-- `for act_type, meta in activities_to_log`
unfoldable pub log_all : RequestContext → ℕ → List (TaskActivityType × Metadata) → Db → Option Db
log_all ctx task_id [] db = some db
log_all ctx task_id ((activity_type, metadata) ∷ rest) db =
    elim (log_activity ctx task_id activity_type metadata db) [
      | none ↦ none
      | some db' ↦ log_all ctx task_id rest db'
    ]

-- The default publisher and `LocalEventPublisher` never raise; what is published is recorded.
unfoldable pub publish : List DomainEvent → Db → Db
publish events db = record db { published = db.published ++ events }

-- One assignment of the `values(…)` of an UPDATE; the `updates` dictionary is a list of these.
pub data FieldUpdate : Type 0 where
  set_status : TaskStatus → FieldUpdate
  set_completed_at : Option ℕ → FieldUpdate
  set_assigned_to : ℕ → FieldUpdate
  set_title : String → FieldUpdate
  set_description : String → FieldUpdate
  set_priority : TaskPriority → FieldUpdate
  set_type : TaskType → FieldUpdate
  set_due_at : ℕ → FieldUpdate
  set_reminder_at : ℕ → FieldUpdate
  set_last_activity_at : ℕ → FieldUpdate
  set_updated_by : ℕ → FieldUpdate

abbrev pub field_name : FieldUpdate → String
field_name (set_status _) = "status"
field_name (set_completed_at _) = "completed_at"
field_name (set_assigned_to _) = "assigned_to"
field_name (set_title _) = "title"
field_name (set_description _) = "description"
field_name (set_priority _) = "priority"
field_name (set_type _) = "type"
field_name (set_due_at _) = "due_at"
field_name (set_reminder_at _) = "reminder_at"
field_name (set_last_activity_at _) = "last_activity_at"
field_name (set_updated_by _) = "updated_by"

unfoldable pub apply_update : FieldUpdate → Task → Task
apply_update (set_status s) t = record t { status = s }
apply_update (set_completed_at c) t = record t { completed_at = c }
apply_update (set_assigned_to a) t = record t { assigned_to = some a }
apply_update (set_title x) t = record t { title = x }
apply_update (set_description x) t = record t { description = some x }
apply_update (set_priority p) t = record t { priority = p }
apply_update (set_type k) t = record t { type = k }
apply_update (set_due_at d) t = record t { due_at = some d }
apply_update (set_reminder_at r) t = record t { reminder_at = some r }
apply_update (set_last_activity_at n) t = record t { last_activity_at = n }
apply_update (set_updated_by u) t = record t { updated_by = u }

unfoldable pub apply_updates : List FieldUpdate → Task → Task
unfolding apply_update
apply_updates [] t = t
apply_updates (u ∷ us) t = apply_updates us (apply_update u t)

-- The WHERE of the optimistic UPDATE.
abbrev pub locked_row : RequestContext → ℕ → ℕ → Task → Bool
locked_row ctx task_id version t =
    t.id == task_id && (t.organization_id == ctx.tenant_id && t.version == version)

abbrev pub bump : List FieldUpdate → ℕ → Task → Task
bump updates version t = record (apply_updates updates t) { version = version + 1 }
