-- ===== src/Task.antt =====
-- The task component: models/task.py, models/task_activity.py, schemas/task.py and the task enums
-- of models/enums.py. Identifiers and instants are numbers. The modules below hold the table and
-- the repositories (Store), the service (Service), and the proofs.
pub mod Store
pub mod Update
pub mod Service
mod WriteBack
mod Sound
mod Command
mod Outcomes
mod Runs
mod Tests
pub mod Idempotence
pub mod Lifecycle
pub mod Completion
pub mod Timeline
pub mod Locking
pub mod Isolation
use hire_ai.Prelude.{ℕ, String, ◌≡◌, refl, Bool, true, false, Option, List, [], ◌∷◌, any}

-- `OPEN` is `opened`, since `open` is a keyword.
pub data TaskStatus : Type 0 where
  opened in_progress completed cancelled : TaskStatus

pub data TaskPriority : Type 0 where
  low medium high urgent : TaskPriority

pub data TaskType : Type 0 where
  call email meeting follow_up demo proposal custom : TaskType

-- The members of `TaskActivityType`; three share a word with a status.
pub data TaskActivityType : Type 0 where
  created updated status_changed assigned completed reopened cancelled : TaskActivityType

abbrev pub same_status : TaskStatus → TaskStatus → Bool
same_status opened opened = true
same_status in_progress in_progress = true
same_status TaskStatus.completed TaskStatus.completed = true
same_status TaskStatus.cancelled TaskStatus.cancelled = true
same_status _ _ = false

-- `_VALID_TRANSITIONS`
abbrev pub valid_transitions : TaskStatus → List TaskStatus
valid_transitions opened = in_progress ∷ TaskStatus.completed ∷ TaskStatus.cancelled ∷ []
valid_transitions in_progress = TaskStatus.completed ∷ TaskStatus.cancelled ∷ []
valid_transitions TaskStatus.completed = opened ∷ []
valid_transitions TaskStatus.cancelled = opened ∷ []

abbrev pub is_valid_transition : TaskStatus → TaskStatus → Bool
is_valid_transition current target = any (λ s. same_status s target) (valid_transitions current)

-- A row of `tasks`. The columns `created_at` and `updated_at` are written by the database alone.
pub record Task : Type 0 where
  pub id : ℕ
  pub organization_id : ℕ
  pub lead_id : ℕ
  pub created_by : ℕ
  pub updated_by : ℕ
  pub assigned_to : Option ℕ
  pub title : String
  pub description : Option String
  pub status : TaskStatus
  pub priority : TaskPriority
  pub type : TaskType
  pub version : ℕ
  pub due_at : Option ℕ
  pub completed_at : Option ℕ
  pub reminder_at : Option ℕ
  pub last_activity_at : ℕ
  pub deleted_at : Option ℕ

-- The values that the service puts into a metadata or payload dictionary.
pub data MetaValue : Type 0 where
  null : MetaValue
  uuid : ℕ → MetaValue
  text : String → MetaValue
  status : TaskStatus → MetaValue
  instant : ℕ → MetaValue
  names : List String → MetaValue

abbrev pub Metadata : Type 0
Metadata = List (String × MetaValue)

-- A row of `task_activities`; every writer passes `ActorType.USER` and metadata version 1.
pub record TaskActivity : Type 0 where
  pub task_id : ℕ
  pub actor_id : ℕ
  pub activity_type : TaskActivityType
  pub event_metadata : Metadata

-- core/events.py, less the generated `event_id` and `timestamp`.
pub record DomainEvent : Type 0 where
  pub event_name : String
  pub tenant_id : ℕ
  pub request_id : String
  pub actor_id : ℕ
  pub payload : Metadata

-- What the service reads of a `RequestContext`.
pub record RequestContext : Type 0 where
  pub tenant_id : ℕ
  pub user_id : ℕ
  pub request_id : String

pub record TaskCreateRequest : Type 0 where
  pub lead_id : ℕ
  pub assigned_to : Option ℕ
  pub title : String
  pub description : Option String
  pub priority : TaskPriority
  pub type : TaskType
  pub due_at : Option ℕ
  pub reminder_at : Option ℕ

pub record TaskUpdateRequest : Type 0 where
  pub version : ℕ
  pub title : Option String
  pub description : Option String
  pub status : Option TaskStatus
  pub priority : Option TaskPriority
  pub type : Option TaskType
  pub due_at : Option ℕ
  pub reminder_at : Option ℕ
  pub assigned_to : Option ℕ

pub same_status_refl : (s : TaskStatus) → same_status s s ≡ true
same_status_refl opened = refl
same_status_refl in_progress = refl
same_status_refl TaskStatus.completed = refl
same_status_refl TaskStatus.cancelled = refl
