-- ===== src/Job/Recovery.antt =====
-- What the recovery of crashed workers leaves behind.
use mathlib.Core.Path.{subst}
use mathlib.Core.Option.{some-injective, none-ne-some}
use hire_ai.Prelude.{
  ℕ, ◌+◌, ◌≡◌, refl, sym, ap, ◌∙◌, inl, inr, Bool, true, false, ◌||◌, none, some, List, [], ◌∷◌,
  filter, All, ◌==◌, ==_iff, Bool-cases, Option-cases,
}
use hire_ai.Job.{AiJob, AiWorker, queued, dispatched, running, has_status, offline, JobDb}
use hire_ai.Job.Repository.{get_job, set_worker, requeue_job, add_job_event}
use hire_ai.Job.Rows.{get_job-set_job}
use hire_ai.Job.Frame.{get_job-other}
use hire_ai.Job.Health.{
  missed_heartbeat, release_lease, recover_job, offline_all, monitor_heartbeats_and_recover,
}

abbrev pub is_active : AiJob → Bool
is_active j = has_status j.status dispatched || has_status j.status running

-- No row of the job says that a worker runs it.
abbrev pub IsIdle : ℕ → JobDb → Type 0
IsIdle k db = (j : AiJob) → get_job k db ≡ some j → is_active j ≡ false

abbrev released_row : AiJob → AiJob → AiJob
released_row job j = record j {
  status = queued;
  worker_id = none;
  lease_owner = none;
  lease_expires_at = none;
  retry_count = job.retry_count + 1;
}

module _ (now : ℕ) (w : AiWorker) (db : JobDb) where
  held_none : w.current_job_id ≡ none → recover_job now w db ≡ ([], db)
  unfolding recover_job
  held_none e = rw (e, recover_job) refl

  module _ (k : ℕ) (held : w.current_job_id ≡ some k) where
    held_missing : get_job k db ≡ none → recover_job now w db ≡ ([], db)
    unfolding recover_job
    held_missing e = rw (held, recover_job) (rw (e, recover_job) refl)

    module _ (job : AiJob) (found : get_job k db ≡ some job) where
      held_inactive : is_active job ≡ false → recover_job now w db ≡ ([], db)
      unfolding recover_job
      held_inactive e = rw (held, recover_job) (rw (found, recover_job) (rw (e, recover_job) refl))

      held_active :
          is_active job ≡ true → recover_job now w db ≡ (k ∷ [], release_lease now w.id job k db)
      unfolding recover_job
      held_active e = rw (held, recover_job) (rw (found, recover_job) (rw (e, recover_job) refl))

      release-IsIdle : IsIdle k (release_lease now w.id job k db)
      unfolding release_lease add_job_event requeue_job get_job
      release-IsIdle j e =
          let row = get_job-set_job k (released_row job) (λ x. refl) db job found in
          ap is_active (sym (some-injective _ _ (sym row ∙ e)))

      release-other :
          (i : ℕ) → (i == k) ≡ false → IsIdle i db → IsIdle i (release_lease now w.id job k db)
      unfolding release_lease add_job_event requeue_job get_job
      release-other i other idle j e =
          idle j (sym (get_job-other i k other (released_row job) (λ x. refl) db) ∙ e)

  -- Recovery leaves an idle job idle, and the job that the worker held.
  recover-IsIdle : (i : ℕ) → IsIdle i db → IsIdle i (recover_job now w db).1
  recover-IsIdle i idle = elim (Option-cases w.current_job_id) [
    | inl e ↦ same (held_none e)
    | inr (k, held) ↦ elim (Option-cases (get_job k db)) [
      | inl e ↦ same (held_missing k held e)
      | inr (job, found) ↦ elim (Bool-cases (is_active job)) [
        | inr rests ↦ same (held_inactive k held job found rests)
        | inl runs ↦
            subst (λ (r : List ℕ × JobDb). IsIdle i r.1) (sym (held_active k held job found runs))
              (elim (Bool-cases (i == k)) [
                | inl one ↦
                    subst (λ n. IsIdle n (release_lease now w.id job k db))
                      (sym ((==_iff i k).0 one)) (release-IsIdle k held job found)
                | inr other ↦ release-other k held job found i other idle
              ])
      ]
    ]
  ]
    where
      same : recover_job now w db ≡ ([], db) → IsIdle i (recover_job now w db).1
      same e = subst (λ (r : List ℕ × JobDb). IsIdle i r.1) (sym e) idle

  recover_own : (k : ℕ) → w.current_job_id ≡ some k → IsIdle k (recover_job now w db).1
  recover_own k held = elim (Option-cases (get_job k db)) [
    | inl e ↦
        subst (λ (r : List ℕ × JobDb). IsIdle k r.1) (sym (held_missing k held e))
          (λ j there. absurd (none-ne-some _ (sym e ∙ there)))
    | inr (job, found) ↦ elim (Bool-cases (is_active job)) [
      | inr rests ↦
          subst (λ (r : List ℕ × JobDb). IsIdle k r.1) (sym (held_inactive k held job found rests))
            (λ j there. ap is_active (some-injective _ _ (sym there ∙ found)) ∙ rests)
      | inl runs ↦
          subst (λ (r : List ℕ × JobDb). IsIdle k r.1) (sym (held_active k held job found runs))
            (release-IsIdle k held job found)
    ]
  ]

-- The job that the worker held, if any, is idle.
abbrev pub Freed : JobDb → AiWorker → Type 0
Freed db w = (k : ℕ) → w.current_job_id ≡ some k → IsIdle k db

module _ (now threshold_sec : ℕ) where
  offline_all-IsIdle :
      (ws : List AiWorker) (db : JobDb) (i : ℕ)
      → IsIdle i db
      → IsIdle i (offline_all now threshold_sec ws db).1
  unfolding offline_all get_job
  offline_all-IsIdle [] db i idle = idle
  offline_all-IsIdle (w ∷ rest) db i idle = offline_all-IsIdle rest _ i (
      recover-IsIdle now w
        (set_worker w.id
          (λ v. record v { worker_status = offline; shutdown_after = some threshold_sec }) db)
        i idle)

  offline_all-Freed :
      (ws : List AiWorker) (db : JobDb) → All (Freed (offline_all now threshold_sec ws db).1) ws
  unfolding offline_all
  offline_all-Freed [] db = tt
  offline_all-Freed (w ∷ rest) db = (
    λ k held. offline_all-IsIdle rest _ k (
        recover_own now w
          (set_worker w.id
            (λ v. record v { worker_status = offline; shutdown_after = some threshold_sec }) db)
          k held),
    offline_all-Freed rest _,
  )

-- After `monitor_heartbeats_and_recover`, no job that was held by a worker with a missed heartbeat is
-- DISPATCHED or RUNNING any more, whatever the workers and the jobs were before.
pub monitor_heartbeats-Freed :
    (now threshold_sec : ℕ) (db : JobDb)
    → All
        (Freed (monitor_heartbeats_and_recover now threshold_sec db).1)
        (filter (missed_heartbeat now threshold_sec) db.workers)
unfolding monitor_heartbeats_and_recover
monitor_heartbeats-Freed now threshold_sec db =
    offline_all-Freed now threshold_sec (filter (missed_heartbeat now threshold_sec) db.workers) db
