-- ===== src/Workflow/Rows.antt =====
-- The step rows that the loop of services/workflow_executor.py adds.
use mathlib.Core.List.{append_assoc, append-nil}
use hire_ai.Prelude.{
  ◌<◌, ℕ, suc, String, ◌⊎◌, inl, inr, ◌+◌, Bool, true, false, none, some, List, [], ◌∷◌, ◌++◌,
  length, count_where, All, ◌≡◌, refl, sym, ap, ◌∙◌, arith,
}
use hire_ai.Workflow.{StepExecutionStatus, WorkflowAction, ExecutionStep}
use hire_ai.Workflow.Executor.{
  ActionResult, done, error, session_lost, Progress, skip_rest, step_of, run_actions,
}

abbrev pub is_success : StepExecutionStatus → Bool
is_success StepExecutionStatus.success = true
is_success _ = false

abbrev pub is_failed : StepExecutionStatus → Bool
is_failed StepExecutionStatus.failed = true
is_failed _ = false

abbrev pub is_skipped : StepExecutionStatus → Bool
is_skipped StepExecutionStatus.skipped = true
is_skipped _ = false

abbrev pub has_succeeded : ExecutionStep → Bool
has_succeeded r = is_success r.status

abbrev pub has_failed : ExecutionStep → Bool
has_failed r = is_failed r.status

abbrev pub was_skipped : ExecutionStep → Bool
was_skipped r = is_skipped r.status

-- One row for each action, in their order, numbered from n.
abbrev pub FollowsActions : (execution_id n : ℕ) → List WorkflowAction → List ExecutionStep → Type 0
FollowsActions x n [] [] = Unit
FollowsActions x n [] (r ∷ rows) = ⊥
FollowsActions x n (a ∷ rest) [] = ⊥
FollowsActions x n (a ∷ rest) (r ∷ rows) =
    ((r.execution_id ≡ x) × ((r.step_order ≡ n) × (r.action_type ≡ a.action_type)))
    × FollowsActions x (n + 1) rest rows

-- The rows of the first of the actions.
abbrev pub FollowsPrefix : (execution_id n : ℕ) → List WorkflowAction → List ExecutionStep → Type 0
FollowsPrefix x n actions [] = Unit
FollowsPrefix x n [] (r ∷ rows) = ⊥
FollowsPrefix x n (a ∷ rest) (r ∷ rows) =
    ((r.execution_id ≡ x) × ((r.step_order ≡ n) × (r.action_type ≡ a.action_type)))
    × FollowsPrefix x (n + 1) rest rows

-- Successes, and then nothing, or one failure and only skipped rows.
abbrev pub StopsAtFailure : List ExecutionStep → Type 0
StopsAtFailure [] = Unit
StopsAtFailure (r ∷ rows) =
    ((has_succeeded r ≡ true) × StopsAtFailure rows)
    ⊎ ((has_failed r ≡ true) × All (λ later. was_skipped later ≡ true) rows)

-- The counters are the numbers of rows with each status.
abbrev pub CountsRows : (succeeded failures passed_over : ℕ) → List ExecutionStep → Type 0
CountsRows succeeded failures passed_over rows =
    (succeeded ≡ count_where has_succeeded rows)
    × ((failures ≡ count_where has_failed rows) × (passed_over ≡ count_where was_skipped rows))

ActionResult-cases :
    (r : ActionResult) → (r ≡ done) ⊎ (((m : String) × (r ≡ error m)) ⊎ (r ≡ session_lost))
ActionResult-cases done = inl refl
ActionResult-cases (error m) = inr (inl (m, refl))
ActionResult-cases session_lost = inr (inr refl)

skip_rest-FollowsActions :
    (x n : ℕ) (rest : List WorkflowAction) → FollowsActions x n rest (skip_rest x n rest)
unfolding skip_rest
skip_rest-FollowsActions x n [] = tt
skip_rest-FollowsActions x n (a ∷ rest) =
    ((refl, (refl, refl)), skip_rest-FollowsActions x (n + 1) rest)

skip_rest-skipped :
    (x n : ℕ) (rest : List WorkflowAction)
    → All (λ later. was_skipped later ≡ true) (skip_rest x n rest)
unfolding skip_rest
skip_rest-skipped x n [] = tt
skip_rest-skipped x n (a ∷ rest) = (refl, skip_rest-skipped x (n + 1) rest)

skip_rest-CountsRows :
    (x n : ℕ) (rest : List WorkflowAction) → CountsRows 0 0 (length rest) (skip_rest x n rest)
unfolding skip_rest
skip_rest-CountsRows x n [] = (refl, (refl, refl))
skip_rest-CountsRows x n (a ∷ rest) =
    let ih = skip_rest-CountsRows x (n + 1) rest in (ih.0, (ih.1.0, ap suc ih.1.1))

module _ {ℓ} {S : Type ℓ} (run_action : WorkflowAction → S → ActionResult × S) where
  -- The loop went through the actions, or the session was lost at one of them.
  abbrev pub Completes : (execution_id n : ℕ) → List WorkflowAction → List ExecutionStep → Type 0
  Completes x n actions rows = FollowsActions x n actions rows × StopsAtFailure rows

  abbrev pub Interrupts : (execution_id n : ℕ) → List WorkflowAction → List ExecutionStep → Type ℓ
  Interrupts x n actions rows =
      (FollowsPrefix x n actions rows × All (λ r. has_succeeded r ≡ true) rows)
      × ((length rows < length actions)
          × ((a : WorkflowAction) × ((s : S) × ((run_action a s).0 ≡ session_lost))))

  -- The rows that the loop adds.
  abbrev pub AddsRows : (execution_id n : ℕ) → List WorkflowAction → (p q : Progress S) → Type ℓ
  AddsRows x n actions p q =
      (rows : List ExecutionStep) × ((q.written ≡ p.written ++ rows)
        × ((q.succeeded ≡ p.succeeded + count_where has_succeeded rows)
            × (((q.lost ≡ false)
                  × (Completes x n actions rows
                      × ((q.failures ≡ p.failures + count_where has_failed rows)
                          × (q.passed_over ≡ count_where was_skipped rows))))
                ⊎ ((q.lost ≡ true) × Interrupts x n actions rows))))

  pub run_actions-AddsRows :
      (x n : ℕ) (actions : List WorkflowAction) (p : Progress S)
      → p.passed_over ≡ 0
      → p.lost ≡ false
      → AddsRows x n actions p (run_actions run_action x n actions p)
  unfolding run_actions
  run_actions-AddsRows x n [] p e l =
      ([], (sym (append-nil p.written), (omega arith, inl (l, ((tt, tt), (omega arith, e))))))
  run_actions-AddsRows x n (a ∷ rest) p e l = elim (ActionResult-cases (run_action a p.tables).0) [
    | inl f ↦
        rw (f, run_actions)
          (let done_row = step_of x n a StepExecutionStatus.success none in
            let q = record p {
              succeeded = p.succeeded + 1;
              written = p.written ++ done_row ∷ [];
              tables = (run_action a p.tables).1;
            } in
            let (rows, (w, (c₁, ends))) = run_actions-AddsRows x (n + 1) rest q e l in
            (
              done_row ∷ rows,
              (
                w ∙ append_assoc p.written (done_row ∷ []) rows,
                (
                  omega (arith, c₁),
                  elim ends [
                    | inl (k, ((follows, stops), (c₂, c₃))) ↦
                        inl (k, ((((refl, (refl, refl)), follows), inl (refl, stops)), (c₂, c₃)))
                    | inr (k, ((follows, succeeded), (short, source))) ↦ inr (
                      k,
                      (
                        (((refl, (refl, refl)), follows), (refl, succeeded)),
                        (omega (arith, short), source),
                      ),
                    )
                  ],
                ),
              ),
            ))
    | inr (inl (message, f)) ↦
        rw (f, run_actions)
          (let counts = skip_rest-CountsRows x (n + 1) rest in
            (
              step_of x n a StepExecutionStatus.failed (some message) ∷ skip_rest x (n + 1) rest,
              (
                refl,
                (
                  omega (arith, counts.0),
                  inl (
                    l,
                    (
                      (
                        ((refl, (refl, refl)), skip_rest-FollowsActions x (n + 1) rest),
                        inr (refl, skip_rest-skipped x (n + 1) rest),
                      ),
                      (omega (arith, counts.1.0), counts.1.1),
                    ),
                  ),
                ),
              ),
            ))
    | inr (inr f) ↦
        rw (f, run_actions)
          (
            [],
            (
              sym (append-nil p.written),
              (omega arith, inr (refl, ((tt, tt), (omega arith, (a, (p.tables, f)))))),
            ),
          )
  ]
