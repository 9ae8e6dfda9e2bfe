-- ===== src/Workflow/Tests.antt =====
-- A workflow of three actions over a table that counts what ran.
use hire_ai.Prelude.{ℕ, ◌+◌, ◌≡◌, refl, Bool, true, none, some, [], ◌∷◌, ◌==◌, if◌then◌else◌}
use hire_ai.Workflow.{
  add_note, update_lead, send_email, ConditionOperator, string, WorkflowExecutionStatus,
  WorkflowCondition, WorkflowAction, WorkflowActionType, Workflow, Execution, WorkflowDb,
}
use hire_ai.Events.Serializer.{no_fields}
use hire_ai.Workflow.Conditions.{evaluate_conditions, check_all}
use hire_ai.Workflow.Executor.{
  ActionResult, done, error, Trigger, check_duplicate_execution, run_actions, execute,
}
use hire_ai.Workflow.Accounts.{AccountsFor, execute_accounted}
use hire_ai.Workflow.Once.{executed_once}
use hire_ai.Workflow.Unique.{Run, HasUniqueLive, run_all, run_all-HasUniqueLive}

abbrev action : ℕ → WorkflowActionType → WorkflowAction
action order type = record { action_type = type; configuration = no_fields; order = order }

abbrev condition : WorkflowCondition
condition = record {
  field = "status";
  operator = ConditionOperator.eq;
  value = some "NEW";
  value_type = string;
  group_id = none;
  order = 1;
}

abbrev rule : ℕ → Workflow
rule id = record {
  id = id;
  enabled = true;
  conditions = condition ∷ [];
  actions = action 3 send_email ∷ action 1 add_note ∷ action 2 update_lead ∷ [];
}

abbrev trigger : Trigger
trigger = record { event_id = 70; entity_id = 5; tenant_id = 1 }

abbrev empty : WorkflowDb
empty = record { executions = []; steps = [] }

-- The action of order 2 raises after it has written.
abbrev raises : WorkflowAction → ℕ → ActionResult × ℕ
raises a n = (if a.order == 2 then error "no lead" else done, n + 1)

abbrev succeeds : WorkflowAction → ℕ → ActionResult × ℕ
succeeds a n = (done, n + 1)

abbrev accepts : WorkflowCondition → Bool
accepts c = true

execute_accounted_example :
    AccountsFor raises accepts 11
      (rule 4).actions
      (execute raises accepts 20 21 11 (rule 4) trigger (empty, 0)).0
      empty
      (execute raises accepts 20 21 11 (rule 4) trigger (empty, 0)).1.0
unfolding check_duplicate_execution evaluate_conditions check_all
execute_accounted_example =
    execute_accounted raises accepts 20 21 11 (rule 4) trigger empty 0 refl refl tt refl

-- The write of the action that raised is kept, and the last action has not run.
raised_write_kept : (execute raises accepts 20 21 11 (rule 4) trigger (empty, 0)).1.1 ≡ 2
unfolding execute check_duplicate_execution evaluate_conditions check_all run_actions
raised_write_kept = refl

abbrev succeeded_execution : Execution
succeeded_execution = record {
  id = 11;
  workflow_id = 4;
  organization_id = 1;
  entity_id = 5;
  status = WorkflowExecutionStatus.success;
  skipped_reason = none;
  steps_total = 3;
  steps_success = 3;
  steps_failed = 0;
  steps_skipped = 0;
  idempotency_key = 70;
  started_at = 20;
  finished_at = some 21;
}

-- Another workflow for the same event does not run.
executed_once_example :
    execute succeeds accepts 30 31 12
      (rule 5)
      trigger
      (execute succeeds accepts 20 21 11 (rule 4) trigger (empty, 0)).1
    ≡ (some succeeded_execution, (execute succeeds accepts 20 21 11 (rule 4) trigger (empty, 0)).1)
unfolding execute check_duplicate_execution evaluate_conditions check_all run_actions
executed_once_example =
    executed_once succeeds accepts 20 21 11 30 31 12 (rule 4) (rule 5) trigger empty 0
      succeeded_execution tt refl refl refl

-- The first execution fails, the second one of the event runs.
abbrev failing_run : Run ℕ
failing_run = record {
  started = 20;
  finished = 21;
  new_id = 11;
  workflow = rule 4;
  trigger = trigger;
  holds = accepts;
  run_action = raises;
}

abbrev later_run : Run ℕ
later_run = record failing_run { new_id = 12; run_action = succeeds }

run_all-HasUniqueLive_example : HasUniqueLive (run_all (failing_run ∷ later_run ∷ []) (empty, 0)).0
unfolding execute check_duplicate_execution evaluate_conditions check_all run_actions
run_all-HasUniqueLive_example =
    run_all-HasUniqueLive (failing_run ∷ later_run ∷ []) empty 0 (tt, ((refl, tt), tt)) tt
