-- ===== src/Workflow/Accounts.antt =====
-- The rows and counters that a run of services/workflow_executor.py leaves.
use hire_ai.Prelude.{
  ℕ, suc, ◌⊎◌, inl, inr, ◌+◌, Bool, true, false, not, Option, none, some, List, [], ◌∷◌, ◌++◌,
  length, any, count_where, sort_by, insert_by, ◌==◌, if◌then◌else◌, ◌≡◌, refl, ap, ◌∙◌, arith,
  Bool-cases,
}
use hire_ai.Workflow.{
  WorkflowExecutionStatus, running, StepExecutionStatus, WorkflowCondition, WorkflowAction,
  Workflow, Execution, ExecutionStep, WorkflowDb,
}
use hire_ai.Workflow.Conditions.{evaluate_conditions}
use hire_ai.Workflow.Executor.{
  ActionResult, Trigger, new_execution, closed_execution, interrupted_execution,
  check_duplicate_execution, run_actions, nothing_run, by_order, execute,
}
use hire_ai.Workflow.Once.{IsFresh}
use hire_ai.Workflow.Unique.{saved_is_last}
use hire_ai.Workflow.Rows.{
  is_success, is_failed, is_skipped, has_succeeded, has_failed, was_skipped, FollowsActions,
  CountsRows, Completes, Interrupts, run_actions-AddsRows,
}

length-insert_by {ℓ} :
    {A : Type ℓ} (before : A → A → Bool) (x : A) (xs : List A)
    → length (insert_by before x xs) ≡ suc (length xs)
length-insert_by before x [] = refl
length-insert_by before x (y ∷ ys) = elim (Bool-cases (before x y)) [
  | inl e ↦ rw e refl
  | inr e ↦ rw e (ap suc (length-insert_by before x ys))
]

length-sort_by {ℓ} :
    {A : Type ℓ} (before : A → A → Bool) (xs : List A) → length (sort_by before xs) ≡ length xs
length-sort_by before [] = refl
length-sort_by before (x ∷ xs) =
    length-insert_by before x (sort_by before xs) ∙ ap suc (length-sort_by before xs)

sum_step :
    (status : StepExecutionStatus) (i j k m : ℕ)
    → i + (j + k) ≡ m
    → (if is_success status then suc i else i)
        + ((if is_failed status then suc j else j) + (if is_skipped status then suc k else k))
      ≡ suc m
sum_step StepExecutionStatus.success i j k m h = omega (arith, h)
sum_step StepExecutionStatus.failed i j k m h = omega (arith, h)
sum_step StepExecutionStatus.skipped i j k m h = omega (arith, h)

-- The three counts add up to the number of actions.
counts_sum :
    (x n : ℕ) (actions : List WorkflowAction) (rows : List ExecutionStep)
    → FollowsActions x n actions rows
    → count_where has_succeeded rows + (count_where has_failed rows + count_where was_skipped rows)
      ≡ length actions
counts_sum x n [] [] h = refl
counts_sum x n [] (r ∷ rows) h = absurd h
counts_sum x n (a ∷ rest) [] h = absurd h
counts_sum x n (a ∷ rest) (r ∷ rows) h =
    sum_step r.status _ _ _ _ (counts_sum x (n + 1) rest rows h.1)

any-count_where {ℓ} :
    {A : Type ℓ} (p : A → Bool) (xs : List A) → (count_where p xs == 0) ≡ not (any p xs)
any-count_where p [] = refl
any-count_where p (x ∷ xs) = elim (Bool-cases (p x)) [
  | inl e ↦ rw e (ground arith)
  | inr e ↦ rw e (any-count_where p xs)
]

zero_add : (n : ℕ) → 0 + n ≡ n
zero_add n = omega arith

status_of :
    (failed_any : Bool) (n : ℕ)
    → (n == 0) ≡ not failed_any
    → (if n == 0 then WorkflowExecutionStatus.success else WorkflowExecutionStatus.failed)
      ≡ (if failed_any then WorkflowExecutionStatus.failed else WorkflowExecutionStatus.success)
status_of true n h = rw h refl
status_of false n h = rw h refl

module _ {ℓ} {S : Type ℓ} (run_action : WorkflowAction → S → ActionResult × S)
    (holds : WorkflowCondition → Bool) where
  abbrev pub IsCompleted :
      (new_id : ℕ)
      → List WorkflowAction
      → Option Execution
      → Execution
      → List ExecutionStep
      → Type 0
  IsCompleted new_id actions answer x rows =
      (answer ≡ some x)
      × (Completes run_action new_id 1 (sort_by by_order actions) rows
          × (CountsRows x.steps_success x.steps_failed x.steps_skipped rows
              × ((x.steps_success + (x.steps_failed + x.steps_skipped) ≡ length actions)
                  × (x.status ≡ (
                      if any has_failed rows
                      then WorkflowExecutionStatus.failed
                      else WorkflowExecutionStatus.success)))))

  abbrev pub IsInterrupted :
      (new_id : ℕ)
      → List WorkflowAction
      → Option Execution
      → Execution
      → List ExecutionStep
      → Type ℓ
  IsInterrupted new_id actions answer x rows =
      (answer ≡ none)
      × (Interrupts run_action new_id 1 (sort_by by_order actions) rows
          × ((x.steps_success ≡ count_where has_succeeded rows) × (x.status ≡ running)))

  -- What a run of the actions leaves in the answer and in the tables.
  abbrev pub AccountsFor :
      (new_id : ℕ) → List WorkflowAction → Option Execution → (before after : WorkflowDb) → Type ℓ
  AccountsFor new_id actions answer before after =
      (x : Execution) × ((rows : List ExecutionStep) × ((after.executions
            ≡ before.executions ++ x ∷ [])
          × ((after.steps ≡ before.steps ++ rows)
              × (IsCompleted new_id actions answer x rows
                  ⊎ IsInterrupted new_id actions answer x rows))))

  -- Where the workflow is enabled, the event has no SUCCESS or RUNNING execution in the organization, the
  -- new identifier is not in the table and the conditions hold, execute adds one execution, and its step
  -- rows are those of the actions in their order, numbered from 1. It answers with the execution: there is
  -- one row for each action, successes, and then nothing, or one failure followed by skipped rows, the
  -- three counters are the numbers of these rows and add up to the number of actions, and the status is
  -- FAILED if a row failed, else SUCCESS. Or, only where an action loses the database session, it raises:
  -- there are fewer rows than actions, all successes, and the execution stays RUNNING with their number.
  pub execute_accounted :
      (started finished new_id : ℕ) (workflow : Workflow) (trigger : Trigger) (db : WorkflowDb)
      (s : S)
      → workflow.enabled ≡ true
      → check_duplicate_execution trigger.tenant_id trigger.event_id db ≡ none
      → IsFresh new_id db.executions
      → (evaluate_conditions holds workflow.conditions).0 ≡ true
      → AccountsFor new_id workflow.actions
          (execute run_action holds started finished new_id workflow trigger (db, s)).0
          db
          (execute run_action holds started finished new_id workflow trigger (db, s)).1.0
  unfolding execute
  execute_accounted started finished new_id workflow trigger db s enabled new fresh holding =
      let sorted = sort_by by_order workflow.actions in
      let x = new_execution started new_id workflow trigger in
      let q = run_actions run_action new_id 1 sorted (nothing_run s) in
      let (rows, (written, (c₁, ends))) =
        run_actions-AddsRows run_action new_id 1 sorted (nothing_run s) refl refl in
      let succeeded = c₁ ∙ zero_add (count_where has_succeeded rows) in
      rw (enabled, execute)
        (rw (new, execute)
          (rw (holding, execute)
            (elim ends [
              | inl (kept, (completes, (c₂, c₃))) ↦
                  let failures = c₂ ∙ zero_add (count_where has_failed rows) in
                  rw (kept, execute)
                    (
                      closed_execution finished q x,
                      (
                        rows,
                        (
                          saved_is_last x (closed_execution finished q x) db.executions refl fresh,
                          (
                            ap (λ w. db.steps ++ w) written,
                            inl (
                              refl,
                              (
                                completes,
                                (
                                  (succeeded, (failures, c₃)),
                                  (
                                    omega (
                                      arith,
                                      c₁,
                                      c₂,
                                      c₃,
                                      counts_sum new_id 1 sorted rows completes.0,
                                      length-sort_by by_order workflow.actions,
                                    ),
                                    status_of (any has_failed rows) _ (
                                        ap (λ n. n == 0) failures
                                        ∙ any-count_where has_failed rows),
                                  ),
                                ),
                              ),
                            ),
                          ),
                        ),
                      ),
                    )
              | inr (lost, interrupts) ↦
                  rw (lost, execute)
                    (
                      interrupted_execution q x,
                      (
                        rows,
                        (
                          saved_is_last x (interrupted_execution q x) db.executions refl fresh,
                          (
                            ap (λ w. db.steps ++ w) written,
                            inr (refl, (interrupts, (succeeded, refl))),
                          ),
                        ),
                      ),
                    )
            ])))
