-- ===== src/Workflow.antt =====
-- The workflow rules: models/workflow.py and workflow_execution.py with their enums. Snapshots, payloads
-- and durations are left out; group names are lists of code points.
pub mod Conditions
pub mod Executor
pub mod Rows
pub mod Accounts
pub mod Once
pub mod Unique
mod Tests
use hire_ai.Prelude.{ℕ, String, Bool, Option, List}
use hire_ai.Leads.{Text}
use hire_ai.Events.Serializer.{Fields}

pub data WorkflowActionType : Type 0 where
  create_task update_lead change_status assign_user : WorkflowActionType
  add_note add_tag send_email send_whatsapp : WorkflowActionType

pub data ConditionOperator : Type 0 where
  eq ne gt gte lt lte contains starts_with ends_with : ConditionOperator
  isin not_in is_null is_not_null : ConditionOperator

pub data ConditionValueType : Type 0 where
  string number boolean datetime : ConditionValueType

pub data WorkflowExecutionStatus : Type 0 where
  running success failed skipped : WorkflowExecutionStatus

pub data StepExecutionStatus : Type 0 where
  success failed skipped : StepExecutionStatus

-- `WorkflowCondition`
pub record WorkflowCondition : Type 0 where
  pub field : String
  pub operator : ConditionOperator
  pub value : Option String
  pub value_type : ConditionValueType
  pub group_id : Option Text
  pub order : ℕ

-- `WorkflowAction`
pub record WorkflowAction : Type 0 where
  pub action_type : WorkflowActionType
  pub configuration : Fields
  pub order : ℕ

pub record Workflow : Type 0 where
  pub id : ℕ
  pub enabled : Bool
  pub conditions : List WorkflowCondition
  pub actions : List WorkflowAction

-- `WorkflowExecution`
pub record Execution : Type 0 where
  pub id : ℕ
  pub workflow_id : ℕ
  pub organization_id : ℕ
  pub entity_id : ℕ
  pub status : WorkflowExecutionStatus
  pub skipped_reason : Option String
  pub steps_total : ℕ
  pub steps_success : ℕ
  pub steps_failed : ℕ
  pub steps_skipped : ℕ
  pub idempotency_key : ℕ
  pub started_at : ℕ
  pub finished_at : Option ℕ

-- `WorkflowExecutionStep`
pub record ExecutionStep : Type 0 where
  pub execution_id : ℕ
  pub step_order : ℕ
  pub action_type : WorkflowActionType
  pub status : StepExecutionStatus
  pub error_message : Option String

pub record WorkflowDb : Type 0 where
  pub executions : List Execution
  pub steps : List ExecutionStep
