-- ===== src/Workflow/Once.antt =====
-- When services/workflow_executor.py answers with the execution it finds: the key is the event alone.
use mathlib.Core.Bool.{true≢false}
use mathlib.Core.Option.{none-ne-some}
use hire_ai.Prelude.{
  ℕ, Bool, true, false, Option, none, some, List, [], ◌∷◌, ◌++◌, find, update_first, ◌==◌, ==_iff,
  sort_by, All, ◌≡◌, refl, sym, ap, ◌∙◌, Bool-cases, Option-cases, inl, inr,
}
use hire_ai.Workflow.{WorkflowCondition, WorkflowAction, Workflow, Execution, WorkflowDb}
use hire_ai.Workflow.Conditions.{evaluate_conditions}
use hire_ai.Workflow.Executor.{
  ActionResult, Trigger, Progress, is_duplicate, is_live, check_duplicate_execution, new_execution,
  closed_execution, run_actions, nothing_run, by_order, execute,
}

-- The identifiers in the table are not the new one.
abbrev pub IsFresh : (new_id : ℕ) → List Execution → Type 0
IsFresh new_id = All (λ x. (x.id == new_id) ≡ false)

-- Among rows of other identifiers, and none of them a duplicate, the saved row is the one found.
find_saved :
    (p : Execution → Bool) (x y : Execution) (rows : List Execution)
    → y.id ≡ x.id
    → IsFresh y.id rows
    → find p rows ≡ none
    → p y ≡ true
    → find p (update_first (λ r. r.id == y.id) (λ r. y) (rows ++ x ∷ [])) ≡ some y
find_saved p x y [] same fresh h hit = rw ((==_iff x.id y.id).1 (sym same)) (rw hit refl)
find_saved p x y (r ∷ rows) same fresh h hit = elim (Bool-cases (p r)) [
  | inl e ↦ absurd (none-ne-some r (sym h ∙ (rw e refl)))
  | inr e ↦ rw fresh.0 (rw e (find_saved p x y rows same fresh.1 (rw e at h) hit))
]

abbrev is_live_answer : Option Execution → Bool
is_live_answer none = true
is_live_answer (some x) = is_live x.status

closed_is_duplicate {ℓ} :
    {S : Type ℓ} (started finished new_id : ℕ) (workflow : Workflow) (trigger : Trigger)
    (p : Progress S)
    → is_live (closed_execution finished p (new_execution started new_id workflow trigger)).status
      ≡ true
    → is_duplicate trigger.tenant_id trigger.event_id
        (closed_execution finished p (new_execution started new_id workflow trigger))
      ≡ true
closed_is_duplicate started finished new_id workflow trigger p live =
    rw ((==_iff trigger.tenant_id trigger.tenant_id).1 refl)
      (rw ((==_iff trigger.event_id trigger.event_id).1 refl) live)

module _ {ℓ} {S : Type ℓ} (run_action : WorkflowAction → S → ActionResult × S)
    (holds : WorkflowCondition → Bool) where
  duplicate_answers :
      (started finished new_id : ℕ) (workflow : Workflow) (trigger : Trigger) (db : WorkflowDb)
      (s : S) (y : Execution)
      → workflow.enabled ≡ true
      → check_duplicate_execution trigger.tenant_id trigger.event_id db ≡ some y
      → execute run_action holds started finished new_id workflow trigger (db, s)
        ≡ (some y, (db, s))
  unfolding execute
  duplicate_answers started finished new_id workflow trigger db s y enabled found =
      rw (enabled, execute) (rw (found, execute) refl)

  -- A live answer is the duplicate that the next call finds.
  stays_found :
      (started finished new_id : ℕ) (workflow : Workflow) (trigger : Trigger) (db : WorkflowDb)
      (s : S) (y : Execution)
      → IsFresh new_id db.executions
      → (execute run_action holds started finished new_id workflow trigger (db, s)).0 ≡ some y
      → is_live y.status ≡ true
      → check_duplicate_execution trigger.tenant_id trigger.event_id
          (execute run_action holds started finished new_id workflow trigger (db, s)).1.0
        ≡ some y
  unfolding execute check_duplicate_execution
  stays_found started finished new_id workflow trigger db s y fresh answer live =
      elim (Bool-cases workflow.enabled) [
        | inr e ↦ absurd (none-ne-some y (rw (e, execute) at answer))
        | inl e ↦
            elim (Option-cases
              (find (is_duplicate trigger.tenant_id trigger.event_id) db.executions)) [
                | inr (d, f) ↦
                    rw (e, execute)
                      (rw (f, execute) (f ∙ (rw (f, execute) at (rw (e, execute) at answer))))
                | inl f ↦ elim (Bool-cases (evaluate_conditions holds workflow.conditions).0) [
                  | inr g ↦ absurd (
                      true≢false (
                        sym (
                          (ap is_live_answer
                              (rw (g, execute) at (rw (f, execute) at (rw (e, execute) at answer)))
                            ∙ live))))
                  | inl g ↦
                      let answered =
                        rw (g, execute) at (rw (f, execute) at (rw (e, execute) at answer)) in
                      let p =
                        run_actions run_action new_id 1 (sort_by by_order workflow.actions)
                          (nothing_run s) in
                      elim (Bool-cases p.lost) [
                        | inl lost ↦ absurd (none-ne-some y (rw (lost, execute) at answered))
                        | inr kept ↦
                            let same = rw (kept, execute) at answered in
                            rw (e, execute)
                              (rw (f, execute)
                                (rw (g, execute)
                                  (rw (kept, execute)
                                    (find_saved (is_duplicate trigger.tenant_id trigger.event_id)
                                        (new_execution started new_id workflow trigger) _
                                        db.executions refl fresh f
                                        (closed_is_duplicate started finished new_id workflow
                                          trigger p (ap is_live_answer same ∙ live))
                                      ∙ same))))
                      ]
                ]
              ]
      ]

  -- Once a workflow was executed for an event and the answer is a SUCCESS or RUNNING execution, where its
  -- new identifier was not in the table, the execution of any enabled workflow, the same or another one,
  -- for that event answers with the same execution and changes nothing: no action runs.
  pub executed_once :
      (started finished new_id started' finished' new_id' : ℕ) (first other : Workflow)
      (trigger : Trigger) (db : WorkflowDb) (s : S) (y : Execution)
      → IsFresh new_id db.executions
      → other.enabled ≡ true
      → (execute run_action holds started finished new_id first trigger (db, s)).0 ≡ some y
      → is_live y.status ≡ true
      → execute run_action holds started' finished' new_id' other trigger
          (execute run_action holds started finished new_id first trigger (db, s)).1
        ≡ (some y, (execute run_action holds started finished new_id first trigger (db, s)).1)
  executed_once started finished new_id started' finished' new_id' first other trigger db s y fresh
        enabled answer live =
      duplicate_answers started' finished' new_id' other trigger _ _ y enabled
        (stays_found started finished new_id first trigger db s y fresh answer live)
