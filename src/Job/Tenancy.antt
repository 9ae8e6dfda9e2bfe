-- ===== src/Job/Tenancy.antt =====
-- The job service and the jobs of other organizations.
use mathlib.Core.Path.{subst}
use mathlib.Core.Option.{some-injective}
use hire_ai.Prelude.{
  ℕ, ◌≡◌, refl, sym, ap, ◌∙◌, ◌⊎◌, inl, inr, Bool, true, false, some, ◌==◌, ==_iff, Bool-cases,
  Option-cases,
}
use hire_ai.Job.{AiJob, queued, cancelled, dead_lettered, has_status, validate_transition, JobDb}
use hire_ai.Job.Repository.{get_job, mark_cancelled, add_job_event, enqueue_job, ack_job}
use hire_ai.Job.Retry.{replay_job, resubmit}
use hire_ai.Job.Submit.{
  Reply, refused, not_found_or_denied, JobContext, with_job, get_job_status, get_job_result,
  cancel_job, retry_job,
}
use hire_ai.Queue.{default}
use hire_ai.Job.Retries.{replay_job_missing, replays, refuses}
use hire_ai.Job.Frame.{get_job-other}

pub data JobCommand : Type 0 where
  status_cmd result_cmd : JobCommand
  cancel_cmd retry_cmd : (now : ℕ) → JobCommand

-- The operations on one job, by their effect.
abbrev pub run_command : JobContext → ℕ → JobCommand → JobDb → JobDb
run_command ctx job_id status_cmd db = (get_job_status ctx job_id db).1
run_command ctx job_id result_cmd db = (get_job_result ctx job_id db).1
run_command ctx job_id (cancel_cmd now) db = (cancel_job ctx now job_id db).1
run_command ctx job_id (retry_cmd now) db = (retry_job ctx now job_id db).1

-- The row of another job is as before.
abbrev Untouched : ℕ → JobDb → JobDb → Type 0
Untouched job_id db db' = (k : ℕ) → (k == job_id) ≡ false → get_job k db' ≡ get_job k db

-- The row is not there, or it is this organization's and the continuation ran.
with_job_cases :
    {A : Type 0} (ctx : JobContext) (job_id : ℕ) (db : JobDb) (k : AiJob → Reply A × JobDb)
    → (with_job ctx job_id db k ≡ (refused not_found_or_denied, db))
      ⊎ ((job : AiJob) × (get_job job_id db ≡ some job)
          × ((job.organization_id == ctx.tenant_id) ≡ true)
          × (with_job ctx job_id db k ≡ k job))
unfolding with_job
with_job_cases {A} ctx job_id db k = elim (Option-cases (get_job job_id db)) [
  | inl e ↦ inl (rw (e, with_job) refl)
  | inr (job, e) ↦ elim (Bool-cases (job.organization_id == ctx.tenant_id)) [
    | inl own ↦ inr (job, e, own, rw (e, with_job) (rw (own, with_job) refl))
    | inr foreign ↦ inl (rw (e, with_job) (rw (foreign, with_job) refl))
  ]
]

module _ (ctx : JobContext) (job_id other : ℕ) (db : JobDb) (theirs : AiJob)
    (found : get_job other db ≡ some theirs)
    (foreign : (theirs.organization_id == ctx.tenant_id) ≡ false) where
  away :
      (job : AiJob)
      → get_job job_id db ≡ some job
      → (job.organization_id == ctx.tenant_id) ≡ true
      → (other == job_id) ≡ false
  away job e own = elim (Bool-cases (other == job_id)) [
    | inr apart ↦ apart
    | inl same ↦
        let one : theirs ≡ job =
          some-injective _ _
            (sym found ∙ ap (λ k. get_job k db) ((==_iff other job_id).0 same) ∙ e) in
        cc (own, foreign, ap (λ (j : AiJob). j.organization_id == ctx.tenant_id) one)
  ]

  with_job-isolated :
      {A : Type 0} (k : AiJob → Reply A × JobDb)
      → ((job : AiJob) → Untouched job_id db (k job).1)
      → get_job other (with_job ctx job_id db k).1 ≡ some theirs
  with_job-isolated {A} k body = elim (with_job_cases ctx job_id db k) [
    | inl e ↦ subst (λ (r : Reply A × JobDb). get_job other r.1 ≡ some theirs) (sym e) found
    | inr (job, here, own, e) ↦
        subst (λ (r : Reply A × JobDb). get_job other r.1 ≡ some theirs) (sym e)
          (body job other (away job here own) ∙ found)
  ]

mark_cancelled-Untouched :
    (now job_id : ℕ) (db : JobDb) → Untouched job_id db (mark_cancelled now job_id db)
unfolding mark_cancelled add_job_event get_job
mark_cancelled-Untouched now job_id db k apart =
    get_job-other k job_id apart (λ j. record j { status = cancelled; cancelled_at = some now })
      (λ j. refl) db

replay_job-Untouched :
    (now job_id : ℕ) (db : JobDb) → Untouched job_id db (replay_job now job_id db).1
unfolding resubmit add_job_event enqueue_job ack_job get_job
replay_job-Untouched now job_id db k apart = elim (Option-cases (get_job job_id db)) [
  | inl e ↦ ap (λ (r : Bool × JobDb). get_job k r.1) (replay_job_missing now job_id db e)
  | inr (job, e) ↦ elim (Bool-cases (has_status job.status dead_lettered)) [
    | inl dead ↦
        ap (λ (r : Bool × JobDb). get_job k r.1) (replays now job_id db job e dead)
        ∙ get_job-other k job_id apart
            (λ j. record j {
              status = queued;
              queue_name = default;
              retry_count = 0;
              retry_consumed = 0;
            })
            (λ j. refl) db
    | inr alive ↦ ap (λ (r : Bool × JobDb). get_job k r.1) (refuses now job_id db job e alive)
  ]
]

-- No operation of the service changes a job of another organization: whichever job it is asked for, a row
-- of another organization is the same after it.
pub run_command_isolated :
    (ctx : JobContext) (job_id other : ℕ) (c : JobCommand) (db : JobDb) (theirs : AiJob)
    → get_job other db ≡ some theirs
    → (theirs.organization_id == ctx.tenant_id) ≡ false
    → get_job other (run_command ctx job_id c db) ≡ some theirs
unfolding get_job_status get_job_result cancel_job retry_job
run_command_isolated ctx job_id other status_cmd db theirs found foreign =
    with_job-isolated ctx job_id other db theirs found foreign _ (λ job k apart. refl)
run_command_isolated ctx job_id other result_cmd db theirs found foreign =
    with_job-isolated ctx job_id other db theirs found foreign _ (λ job k apart. refl)
run_command_isolated ctx job_id other (cancel_cmd now) db theirs found foreign =
    with_job-isolated ctx job_id other db theirs found foreign _ (λ job.
      elim (Bool-cases (validate_transition job.status cancelled)) [
        | inl may ↦ rw may (mark_cancelled-Untouched now job_id db)
        | inr mayn ↦ rw mayn (λ k apart. refl)
      ])
run_command_isolated ctx job_id other (retry_cmd now) db theirs found foreign =
    with_job-isolated ctx job_id other db theirs found foreign _
      (λ job. replay_job-Untouched now job_id db)
