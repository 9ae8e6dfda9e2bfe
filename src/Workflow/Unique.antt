-- ===== src/Workflow/Unique.antt =====
-- The key of services/workflow_executor.py: what check_duplicate_execution finds is unique.
use mathlib.Core.Path.{subst}
use mathlib.Core.Option.{none-ne-some}
use hire_ai.Prelude.{
  ℕ, Bool, false, Option, none, List, [], ◌∷◌, ◌++◌, find, update_first, ◌==◌, ==_iff, sort_by, All,
  Pairwise, Pairwise-append, ◌≡◌, refl, sym, ap, ◌∙◌, Bool-cases, Option-cases, inl, inr, ◌&&◌,
  All-weaken,
}
use hire_ai.Workflow.{WorkflowCondition, WorkflowAction, Workflow, Execution, WorkflowDb}
use hire_ai.Workflow.Conditions.{evaluate_conditions}
use hire_ai.Workflow.Executor.{
  ActionResult, Trigger, is_live, is_duplicate, check_duplicate_execution, new_execution,
  closed_execution, interrupted_execution, skipped_execution, run_actions, nothing_run, by_order,
  execute,
}
use hire_ai.Workflow.Once.{IsFresh}

-- Not two rows of an organization with one key that are SUCCESS or RUNNING.
abbrev pub AreApart : Execution → Execution → Type 0
AreApart x y = (is_duplicate y.organization_id y.idempotency_key x && is_live y.status) ≡ false

abbrev pub HasUniqueLive : WorkflowDb → Type 0
HasUniqueLive db = Pairwise AreApart db.executions

-- One call of the executor, with what its handlers do.
pub record Run {ℓ} (S : Type ℓ) : Type ℓ where
  pub started : ℕ
  pub finished : ℕ
  pub new_id : ℕ
  pub workflow : Workflow
  pub trigger : Trigger
  pub holds : WorkflowCondition → Bool
  pub run_action : WorkflowAction → S → ActionResult × S

pub saved_is_last :
    (x y : Execution) (rows : List Execution)
    → y.id ≡ x.id
    → IsFresh y.id rows
    → update_first (λ r. r.id == y.id) (λ r. y) (rows ++ x ∷ []) ≡ rows ++ y ∷ []
saved_is_last x y [] same fresh = rw ((==_iff x.id y.id).1 (sym same)) refl
saved_is_last x y (r ∷ rows) same fresh =
    rw fresh.0 (ap (λ l. r ∷ l) (saved_is_last x y rows same fresh.1))

find-none {ℓ} :
    {A : Type ℓ} (p : A → Bool) (xs : List A) → find p xs ≡ none → All (λ x. p x ≡ false) xs
find-none p [] h = tt
find-none p (x ∷ xs) h = elim (Bool-cases (p x)) [
  | inl e ↦ absurd (none-ne-some x (sym h ∙ (rw e refl)))
  | inr e ↦ (e, find-none p xs (rw e at h))
]

-- The row of a new key, saved last, is apart from all others.
saved-HasUniqueLive :
    (x y : Execution) (rows : List Execution)
    → y.id ≡ x.id
    → IsFresh y.id rows
    → find (is_duplicate y.organization_id y.idempotency_key) rows ≡ none
    → Pairwise AreApart rows
    → Pairwise AreApart (update_first (λ r. r.id == y.id) (λ r. y) (rows ++ x ∷ []))
saved-HasUniqueLive x y rows same fresh new unique =
    subst (Pairwise AreApart) (sym (saved_is_last x y rows same fresh)) (
      Pairwise-append AreApart rows y unique (
        All-weaken (λ r. is_duplicate y.organization_id y.idempotency_key r ≡ false)
          (λ r. AreApart r y) rows (λ r e. rw e refl)
          (find-none (is_duplicate y.organization_id y.idempotency_key) rows new)))

module _ {ℓ} {S : Type ℓ} where
  abbrev pub run : Run S → WorkflowDb × S → Option Execution × (WorkflowDb × S)
  run r state =
      execute r.run_action r.holds r.started r.finished r.new_id r.workflow r.trigger state

  abbrev pub run_all : List (Run S) → WorkflowDb × S → WorkflowDb × S
  run_all [] state = state
  run_all (r ∷ runs) state = run_all runs (run r state).1

  -- Every generated identifier is new to the table it meets.
  abbrev pub HaveFreshIds : List (Run S) → WorkflowDb × S → Type 0
  HaveFreshIds [] state = Unit
  HaveFreshIds (r ∷ runs) state =
      IsFresh r.new_id state.0.executions × HaveFreshIds runs (run r state).1

  run-HasUniqueLive :
      (r : Run S) (db : WorkflowDb) (s : S)
      → IsFresh r.new_id db.executions
      → HasUniqueLive db
      → HasUniqueLive (run r (db, s)).1.0
  unfolding execute check_duplicate_execution
  run-HasUniqueLive r db s fresh unique = elim (Bool-cases r.workflow.enabled) [
    | inr e ↦ rw (e, execute) unique
    | inl e ↦
        elim (Option-cases
          (find (is_duplicate r.trigger.tenant_id r.trigger.event_id) db.executions)) [
            | inr (d, f) ↦ rw (e, execute) (rw (f, execute) unique)
            | inl f ↦
                let x = new_execution r.started r.new_id r.workflow r.trigger in
                elim (Bool-cases (evaluate_conditions r.holds r.workflow.conditions).0) [
                  | inr g ↦
                      rw (e, execute)
                        (rw (f, execute)
                          (rw (g, execute)
                            (saved-HasUniqueLive x (skipped_execution r.finished x) db.executions
                              refl fresh f unique)))
                  | inl g ↦
                      let p =
                        run_actions r.run_action r.new_id 1 (sort_by by_order r.workflow.actions)
                          (nothing_run s) in
                      elim (Bool-cases p.lost) [
                        | inl lost ↦
                            rw (e, execute)
                              (rw (f, execute)
                                (rw (g, execute)
                                  (rw (lost, execute)
                                    (saved-HasUniqueLive x (interrupted_execution p x) db.executions
                                      refl fresh f unique))))
                        | inr kept ↦
                            rw (e, execute)
                              (rw (f, execute)
                                (rw (g, execute)
                                  (rw (kept, execute)
                                    (saved-HasUniqueLive x (closed_execution r.finished p x)
                                      db.executions refl fresh f unique))))
                      ]
                ]
          ]
  ]

  -- If at most one execution of an organization and an event is SUCCESS or RUNNING, this still holds after
  -- any sequence of executions, of whichever workflows and events, whose new identifiers are not yet in the
  -- table: the query for a duplicate never meets two rows.
  pub run_all-HasUniqueLive :
      (runs : List (Run S)) (db : WorkflowDb) (s : S)
      → HaveFreshIds runs (db, s)
      → HasUniqueLive db
      → HasUniqueLive (run_all runs (db, s)).0
  run_all-HasUniqueLive [] db s fresh unique = unique
  run_all-HasUniqueLive (r ∷ runs) db s fresh unique =
      run_all-HasUniqueLive runs (run r (db, s)).1.0 (run r (db, s)).1.1 fresh.1
        (run-HasUniqueLive r db s fresh.0 unique)
