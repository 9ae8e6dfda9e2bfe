-- ===== src/Job/Rows.antt =====
-- Rows found and updated by their primary key.
use mathlib.Core.Option.{some-injective, none-ne-some}
use hire_ai.Prelude.{
  ℕ, ◌≡◌, sym, ap, ◌∙◌, inl, inr, true, some, List, [], ◌∷◌, find, ◌==◌, if◌then◌else◌, Bool-cases,
}
use hire_ai.Job.{AiJob, JobDb}
use hire_ai.Job.Repository.{update_job, get_job, set_job}

module _ (job_id : ℕ) (f : AiJob → AiJob) (keeps : (j : AiJob) → (f j).id ≡ j.id) where
  find-update_job :
      (js : List AiJob) (job : AiJob)
      → find (λ j. j.id == job_id) js ≡ some job
      → find (λ j. j.id == job_id) (update_job job_id f js) ≡ some (f job)
  unfolding update_job
  find-update_job [] job h = absurd (none-ne-some _ h)
  find-update_job (j ∷ js) job h = elim (Bool-cases (j.id == job_id)) [
    | inl same ↦ rw same (
        ap (λ b. if b then some (f j) else find (λ (x : AiJob). x.id == job_id) js)
          (ap (λ i. i == job_id) (keeps j) ∙ same)
        ∙ ap (λ x. some (f x)) (some-injective _ _ (rw same at h)))
    | inr other ↦ rw (other, other) (find-update_job js job (rw other at h))
  ]

  pub get_job-set_job :
      (db : JobDb) (job : AiJob)
      → get_job job_id db ≡ some job
      → get_job job_id (set_job job_id f db) ≡ some (f job)
  unfolding get_job
  get_job-set_job db job h = find-update_job db.jobs job h

-- The row is there.
abbrev pub IsPresent : ℕ → JobDb → Type 0
IsPresent job_id db = (job : AiJob) × (get_job job_id db ≡ some job)

module _ (job_id : ℕ) (f : AiJob → AiJob) (keeps : (j : AiJob) → (f j).id ≡ j.id) where
  pub IsPresent-set_job :
      (db : JobDb) → IsPresent job_id db → IsPresent job_id (set_job job_id f db)
  IsPresent-set_job db (job, h) = (f job, get_job-set_job job_id f keeps db job h)

pub get_job-id :
    (job_id : ℕ) (db : JobDb) (job : AiJob)
    → get_job job_id db ≡ some job
    → (job.id == job_id) ≡ true
unfolding get_job
get_job-id job_id db job h = found_id db.jobs h
  where
    found_id :
        (js : List AiJob) → find (λ j. j.id == job_id) js ≡ some job → (job.id == job_id) ≡ true
    found_id [] e = absurd (none-ne-some _ e)
    found_id (j ∷ js) e = elim (Bool-cases (j.id == job_id)) [
      | inl same ↦
          ap (λ (x : AiJob). x.id == job_id) (sym (some-injective _ _ (rw same at e))) ∙ same
      | inr other ↦ found_id js (rw other at e)
    ]
