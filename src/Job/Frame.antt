-- ===== src/Job/Frame.antt =====
-- What executing a job, or an UPDATE of one job, leaves alone.
use hire_ai.Prelude.{
  ℕ, ◌≡◌, refl, ap, ◌∙◌, inl, inr, true, false, some, List, [], ◌∷◌, find, ◌==◌, if◌then◌else◌,
  Bool-cases, arith,
}
use hire_ai.Job.{AiJob, JobDb}
use hire_ai.Job.Repository.{update_job, get_job, set_job, add_job_event}
use hire_ai.Job.Execute.{Environment, execute_job, record_trace}
use hire_ai.Job.Keeps.{execute_job-keeps}

apart : (a k job_id : ℕ) → (k == job_id) ≡ false → (a == job_id) ≡ true → (a == k) ≡ false
apart a k job_id h e = ground arith

module _ (k job_id : ℕ) (other : (k == job_id) ≡ false) (f : AiJob → AiJob)
    (keeps : (j : AiJob) → (f j).id ≡ j.id) where
  find-update_other :
      (js : List AiJob) → find (λ j. j.id == k) (update_job job_id f js) ≡ find (λ j. j.id == k) js
  unfolding update_job
  find-update_other [] = refl
  find-update_other (j ∷ js) = elim (Bool-cases (j.id == job_id)) [
    | inl same ↦
        let away = apart j.id k job_id other same in
        rw (same, away)
          (ap (λ b. if b then some (f j) else find (λ (x : AiJob). x.id == k) js)
            (ap (λ i. i == k) (keeps j) ∙ away))
    | inr away ↦ rw away (ap (λ r. if j.id == k then some j else r) (find-update_other js))
  ]

  pub get_job-other : (db : JobDb) → get_job k (set_job job_id f db) ≡ get_job k db
  unfolding get_job
  get_job-other db = find-update_other db.jobs

-- Everything but the row of the job, its events, results and traces.
abbrev pub Frame : ℕ → JobDb → JobDb → Type 0
Frame job_id before db =
    (db.workers ≡ before.workers)
    × (db.queues ≡ before.queues)
    × ((k : ℕ) → (k == job_id) ≡ false → get_job k db ≡ get_job k before)

-- The tables as an execution leaves them in its session, before any rollback, have the same workers, queues
-- and rows of other jobs.
pub execute_job-Frame :
    (env : Environment) (now job_id trace_id : ℕ) (db : JobDb)
    → Frame job_id db (execute_job env now job_id trace_id db).1
unfolding add_job_event record_trace get_job
execute_job-Frame env now job_id trace_id db =
    execute_job-keeps env now job_id (Frame job_id db)
      (λ f keeps db' h. (
        h.0,
        h.1,
        λ k. λ (other : (k == job_id) ≡ false).
            get_job-other k job_id other f keeps db' ∙ h.2 k other,
      ))
      (λ e db' h. h) (λ e db' h. h) (λ rs db' h. h) trace_id db
      (refl, refl, λ k. λ (other : (k == job_id) ≡ false). refl)
