-- ===== src/Workflow/Executor.antt =====
-- services/workflow_executor.py, over the tables on which the actions work. What an action's handler
-- does to them, and whether it raises, is a parameter: what it wrote before is committed all the same, but
-- where it raises in the database the session refuses the step row too, and the last commit is what stays.
-- Executions that the handlers' own events start use sessions of their own and are not followed.
use hire_ai.Prelude.{
  ℕ, ◌+◌, String, Bool, true, false, not, ◌&&◌, Option, none, some, List, [], ◌∷◌, ◌++◌, length,
  find, sort_by, update_first, leb, ◌==◌, if◌then◌else◌,
}
use hire_ai.Workflow.{
  WorkflowExecutionStatus, running, StepExecutionStatus, WorkflowCondition, WorkflowAction,
  Workflow, Execution, ExecutionStep, WorkflowDb,
}
use hire_ai.Workflow.Conditions.{evaluate_conditions}

pub data ActionResult : Type 0 where
  done : ActionResult
  error : String → ActionResult
  session_lost : ActionResult

-- What the executor reads of a `WorkflowTriggerContext` and the request.
pub record Trigger : Type 0 where
  pub event_id : ℕ
  pub entity_id : ℕ
  pub tenant_id : ℕ

abbrev pub is_live : WorkflowExecutionStatus → Bool
is_live running = true
is_live WorkflowExecutionStatus.success = true
is_live _ = false

-- `check_duplicate_execution`: a SUCCESS or RUNNING execution with the key. The source raises where there
-- are two, and this takes the first; executions alone never make two.
abbrev pub is_duplicate : (tenant_id idempotency_key : ℕ) → Execution → Bool
is_duplicate tenant_id idempotency_key x =
    x.organization_id == tenant_id && ((x.idempotency_key == idempotency_key) && is_live x.status)

unfoldable pub check_duplicate_execution :
    (tenant_id idempotency_key : ℕ) → WorkflowDb → Option Execution
check_duplicate_execution tenant_id idempotency_key db =
    find (is_duplicate tenant_id idempotency_key) db.executions

-- `create_execution`, then the commit
abbrev pub create_execution : Execution → WorkflowDb → WorkflowDb
create_execution x db = record db { executions = db.executions ++ x ∷ [] }

-- `db.add(execution)` at the end, then the commit: the row's columns are written.
abbrev pub save_execution : Execution → WorkflowDb → WorkflowDb
save_execution y db = record db {
  executions = update_first (λ x. x.id == y.id) (λ x. y) db.executions;
}

abbrev pub step_of :
    (execution_id step_order : ℕ)
    → WorkflowAction
    → StepExecutionStatus
    → Option String
    → ExecutionStep
step_of execution_id step_order action status message = record {
  execution_id = execution_id;
  step_order = step_order;
  action_type = action.action_type;
  status = status;
  error_message = message;
}

-- "Log the skipped steps in database"
unfoldable pub skip_rest : (execution_id step_order : ℕ) → List WorkflowAction → List ExecutionStep
skip_rest execution_id n [] = []
skip_rest execution_id n (a ∷ rest) =
    step_of execution_id n a StepExecutionStatus.skipped none ∷ skip_rest execution_id (n + 1) rest

-- The counters of the loop, the step rows it wrote, and the tables.
pub record Progress {ℓ} (S : Type ℓ) : Type ℓ where
  pub succeeded : ℕ
  pub failures : ℕ
  pub passed_over : ℕ
  pub written : List ExecutionStep
  pub tables : S
  pub lost : Bool  -- the commit of a step row raised

abbrev pub nothing_run {ℓ} : {S : Type ℓ} → S → Progress S
nothing_run s = record {
  succeeded = 0;
  failures = 0;
  passed_over = 0;
  written = [];
  tables = s;
  lost = false;
}

abbrev pub by_order : WorkflowAction → WorkflowAction → Bool
by_order a b = leb a.order b.order

-- "Initialize execution run log (RUNNING status)"
abbrev pub new_execution : (now new_id : ℕ) → Workflow → Trigger → Execution
new_execution now new_id workflow trigger = record {
  id = new_id;
  workflow_id = workflow.id;
  organization_id = trigger.tenant_id;
  entity_id = trigger.entity_id;
  status = running;
  skipped_reason = none;
  steps_total = length workflow.actions;
  steps_success = 0;
  steps_failed = 0;
  steps_skipped = 0;
  idempotency_key = trigger.event_id;
  started_at = now;
  finished_at = none;
}

abbrev pub skipped_execution : (now : ℕ) → Execution → Execution
skipped_execution now x = record x {
  status = WorkflowExecutionStatus.skipped;
  skipped_reason = some "ConditionFalse";
  steps_skipped = x.steps_total;
  finished_at = some now;
}

-- "Close and complete execution log"
abbrev pub closed_execution {ℓ} : {S : Type ℓ} → (now : ℕ) → Progress S → Execution → Execution
closed_execution now p x = record x {
  status =
      if p.failures == 0 then WorkflowExecutionStatus.success else WorkflowExecutionStatus.failed;
  skipped_reason = if p.failures == 0 then none else some "StepFailed";
  steps_success = p.succeeded;
  steps_failed = p.failures;
  steps_skipped = p.passed_over;
  finished_at = some now;
}

-- The row as the last commit of a step left it.
abbrev pub interrupted_execution {ℓ} : {S : Type ℓ} → Progress S → Execution → Execution
interrupted_execution p x = record x { steps_success = p.succeeded }

module _ {ℓ} {S : Type ℓ} (run_action : WorkflowAction → S → ActionResult × S) where
  -- The loop over the sorted actions; the first failure ends it.
  unfoldable pub run_actions :
      (execution_id step_order : ℕ) → List WorkflowAction → Progress S → Progress S
  run_actions execution_id n [] p = p
  run_actions execution_id n (a ∷ rest) p =
      let out = run_action a p.tables in
      elim out.0 [
        | done ↦ run_actions execution_id (n + 1) rest (record p {
          succeeded = p.succeeded + 1;
          written = p.written ++ step_of execution_id n a StepExecutionStatus.success none ∷ [];
          tables = out.1;
        })
        | error message ↦ record p {
          failures = p.failures + 1;
          passed_over = length rest;
          written =
              p.written
              ++ step_of execution_id n a StepExecutionStatus.failed (some message)
                ∷ skip_rest execution_id (n + 1) rest;
          tables = out.1;
        }
        | session_lost ↦ record p { lost = true }
      ]

  -- `execute`; none when it raises, with a ValidationException or since the session was lost.
  unfoldable pub execute :
      (holds : WorkflowCondition → Bool) (started finished new_id : ℕ)
      → Workflow
      → Trigger
      → WorkflowDb × S
      → Option Execution × (WorkflowDb × S)
  execute holds started finished new_id workflow trigger (db, s) =
      if not workflow.enabled
      then (none, (db, s))
      else elim (check_duplicate_execution trigger.tenant_id trigger.event_id db) [
        | some duplicate ↦ (some duplicate, (db, s))
        | none ↦
            let x = new_execution started new_id workflow trigger in
            if (evaluate_conditions holds workflow.conditions).0
            then (let p =
                  run_actions new_id 1 (sort_by by_order workflow.actions) (nothing_run s) in
                let created = create_execution x db in
                let logged = record created { steps = created.steps ++ p.written } in
                if p.lost
                then (none, (save_execution (interrupted_execution p x) logged, p.tables))
                else (
                  some (closed_execution finished p x),
                  (save_execution (closed_execution finished p x) logged, p.tables),
                ))
            else (let y = skipped_execution finished x in
                (some y, (save_execution y (create_execution x db), s)))
      ]
