-- ===== src/Job/Reports.antt =====
-- What `execute_job` reports is what the job and its result say.
use mathlib.Core.Path.{subst}
use hire_ai.Prelude.{
  ℕ, String, ◌⊎◌, inl, inr, Option-cases, ◌≡◌, refl, sym, Bool, true, false, Option, none, some,
  List, [], ◌∷◌, ◌++◌,
}
use hire_ai.Job.{
  AiJob, JobStatus, system_failure, trace_cancelled, trace_failed, TraceEvent, completed, cancelled,
  failed, JobDb, JobResult, Output, JobFailureCategory, no_output, success_output, cancelled_output,
}
use hire_ai.Job.Repository.{get_job, set_job, add_job_event, save_result, mark_cancelled}
use hire_ai.Job.Rows.{IsPresent, IsPresent-set_job, get_job-set_job}
use hire_ai.Job.Execute.{
  code_error, database_error, aborted, Environment, cancelled_stop, fault_stop, Progress, going,
  stopped, ExecResult, returned, raised, job_missing, record_trace, run_body, handle_cancellation,
  handle_failure, conclude, execute_job, close_trace,
}
use hire_ai.Job.Aborts.{IsRaised, run_body-IsRaised}
use hire_ai.Job.Keeps.{execute_job_found, Both, run_body-keeps, finish-keeps}

-- The status that a result stands for.
abbrev pub StatusOf : ExecResult → JobStatus → Type 0
StatusOf (returned success_output) s = s ≡ completed
StatusOf (returned cancelled_output) s = s ≡ cancelled
StatusOf (returned no_output) s = ⊥
StatusOf (raised e) s = s ≡ failed
StatusOf (aborted e) s = ⊥
StatusOf job_missing s = ⊥

-- The last result saved for the job has this status.
abbrev pub LastResult : ℕ → JobStatus → JobDb → Type 0
LastResult job_id s db =
    (before : List JobResult) × (r : JobResult) × (db.results ≡ before ++ r ∷ [])
    × (r.job_id ≡ job_id)
    × (r.result_status ≡ s)

abbrev pub Settled : ℕ → JobStatus → JobDb → Type 0
Settled job_id s db =
    ((job : AiJob) × (get_job job_id db ≡ some job) × (job.status ≡ s)) × LastResult job_id s db

-- The environment raises this error of the database, in the body or in a handler.
abbrev pub IsFault : Environment → String → Type 0
IsFault env e = (env.closing_fault ≡ some e) ⊎ ((n : ℕ) × (env.fault n ≡ some (database_error e)))

-- Every status that `execute_job` can report, with what it says of the job; an execution that aborts
-- has saved no result.
abbrev pub Reported : Environment → ℕ → JobDb → ExecResult → JobDb → Type 0
Reported env job_id before (aborted e) db = IsFault env e × (db.results ≡ before.results)
Reported env job_id before r db = (s : JobStatus) × StatusOf r s × Settled job_id s db

-- The job is there, and no result was added.
abbrev IsUnsettled : ℕ → JobDb → JobDb → Type 0
IsUnsettled job_id before db = IsPresent job_id db × (db.results ≡ before.results)

module _ (env : Environment) (now job_id : ℕ) where
  save_result-Settled :
      (status : JobStatus) (db : JobDb) (out : Output) (message : Option String)
      (category : Option JobFailureCategory) (ms tokens : ℕ)
      → IsPresent job_id db
      → Settled job_id status (save_result now job_id status out message category ms tokens db)
  unfolding save_result add_job_event get_job
  save_result-Settled status db out message category ms tokens (job, h) = (
    (
      record job { status = status; completed_at = some now },
      get_job-set_job job_id _ (λ j. refl) db job h,
      refl,
    ),
    (db.results, _, refl, refl, refl),
  )

  run_body-Settled :
      (trace_id : ℕ) (job : AiJob) (before : JobDb)
      → IsPresent job_id before
      → Both
          (Settled job_id completed)
          (IsUnsettled job_id before)
          (run_body env now job_id trace_id job before)
  unfolding add_job_event record_trace get_job
  run_body-Settled trace_id job before h =
      run_body-keeps env now job_id (IsUnsettled job_id before)
        (λ f keeps db' h. (IsPresent-set_job job_id f keeps db' h.0, h.1)) (λ e db' h. h)
        (λ e db' h. h) (Settled job_id completed) trace_id job before
        (λ db'.
          finish-keeps env now job_id (IsUnsettled job_id before)
            (λ f keeps db' h. (IsPresent-set_job job_id f keeps db' h.0, h.1)) (λ e db' h. h)
            (λ e db' h. h) (Settled job_id completed) trace_id db'
            (λ db'' k. save_result-Settled completed db'' _ _ _ _ _ k.0))
        (h, refl)

  Settled-set_job :
      (f : AiJob → AiJob) (s : JobStatus)
      → ((j : AiJob) → (f j).id ≡ j.id)
      → ((j : AiJob) → (f j).status ≡ s)
      → (db : JobDb) → Settled job_id s db
      → Settled job_id s (set_job job_id f db)
  unfolding get_job
  Settled-set_job f s keeps sets db ((job, h, _), last) =
      ((f job, get_job-set_job job_id f keeps db job h, sets job), last)

  close_trace-Settled :
      (event : TraceEvent) (traced : Bool) (s : JobStatus) (db : JobDb)
      → Settled job_id s db
      → Settled job_id s (close_trace event traced db)
  unfolding record_trace get_job
  close_trace-Settled event true s db h = h
  close_trace-Settled event false s db h = h

  handle_cancellation-Settled :
      (trace_id : ℕ) (traced : Bool) (db : JobDb)
      → IsPresent job_id db
      → Settled job_id cancelled (handle_cancellation now job_id trace_id traced db)
  unfolding handle_cancellation mark_cancelled add_job_event get_job
  handle_cancellation-Settled trace_id traced db h =
      Settled-set_job _ cancelled (λ j. refl) (λ j. refl)
        (close_trace (trace_cancelled trace_id) traced (
          save_result now job_id cancelled cancelled_output (some "Job cancelled by user request.")
            none 0 0 db))
        (close_trace-Settled (trace_cancelled trace_id) traced cancelled
          (save_result now job_id cancelled cancelled_output (some "Job cancelled by user request.")
            none 0 0 db)
          (save_result-Settled cancelled db _ _ _ _ _ h))

  handle_failure-Settled :
      (trace_id : ℕ) (error : String) (traced : Bool) (db : JobDb)
      → IsPresent job_id db
      → Settled job_id failed (handle_failure now job_id trace_id error traced db)
  unfolding handle_failure add_job_event get_job
  handle_failure-Settled trace_id error traced db h =
      Settled-set_job _ failed (λ j. refl) (λ j. refl)
        (close_trace (trace_failed trace_id) traced
          (save_result now job_id failed no_output (some error) (some system_failure) 0 0 db))
        (close_trace-Settled (trace_failed trace_id) traced failed
          (save_result now job_id failed no_output (some error) (some system_failure) 0 0 db)
          (save_result-Settled failed db _ _ _ _ _ h))

  conclude-Reported :
      (trace_id : ℕ) (before : JobDb) (p : Progress)
      → Both (Settled job_id completed) (IsUnsettled job_id before) p
      → IsRaised env p
      → Reported env job_id before
          (conclude now job_id env trace_id p).0
          (conclude now job_id env trace_id p).1
  unfolding conclude
  conclude-Reported trace_id before (going db) h f = (completed, refl, h)
  conclude-Reported trace_id before (stopped cancelled_stop traced db) h f =
      elim (Option-cases env.closing_fault) [
        | inl e ↦
            rw (e, conclude) (cancelled, refl, handle_cancellation-Settled trace_id traced db h.0)
        | inr (m, e) ↦ rw (e, conclude) (inl refl, h.1)
      ]
  conclude-Reported trace_id before (stopped (fault_stop (code_error m)) traced db) h f =
      elim (Option-cases env.closing_fault) [
        | inl e ↦ rw (e, conclude) (failed, refl, handle_failure-Settled trace_id m traced db h.0)
        | inr (m', e) ↦ rw (e, conclude) (inl refl, h.1)
      ]
  conclude-Reported trace_id before (stopped (fault_stop (database_error m)) traced db) h f =
      (inr f, h.1)

  -- Whatever cancellations arrive between the checkpoints and whatever is raised, executing a job that
  -- exists ends in one of four ways: it returns success and the job is COMPLETED, it returns a
  -- cancellation and the job is CANCELLED, it raises and the job is FAILED, or, only where the database
  -- raises in the body or in a handler, it aborts before any result is saved and its session is to be
  -- rolled back. In the first three the last result saved is one of this job, with that same status.
  pub execute_job-Reported :
      (trace_id : ℕ) (db : JobDb) (job : AiJob)
      → get_job job_id db ≡ some job
      → Reported env job_id db
          (execute_job env now job_id trace_id db).0
          (execute_job env now job_id trace_id db).1
  execute_job-Reported trace_id db job h =
      subst (λ (r : ExecResult × JobDb). Reported env job_id db r.0 r.1)
        (sym (execute_job_found env now job_id trace_id db job h))
        (conclude-Reported trace_id db (run_body env now job_id trace_id job db)
          (run_body-Settled trace_id job db (job, h))
          (run_body-IsRaised env now job_id trace_id job db))
