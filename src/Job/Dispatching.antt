-- ===== src/Job/Dispatching.antt =====
-- What a dispatch leaves behind.
use mathlib.Core.Path.{subst}
use mathlib.Core.Option.{some-injective, none-ne-some}
use hire_ai.Prelude.{
  ℕ, ◌+◌, ◌≡◌, refl, sym, ap, ◌∙◌, inl, inr, true, false, Option, none, some, List, [], ◌∷◌, find,
  ◌==◌, if◌then◌else◌, Bool-cases, Option-cases, arith,
}
use hire_ai.Queue.{QueueType, QueueItem}
use hire_ai.Job.{AiJob, JobStatus, AiWorker, idle, busy, queued, dispatched, has_status, JobDb}
use hire_ai.Job.Repository.{get_job, update_worker, dequeue_job, ack_job, add_job_event}
use hire_ai.Job.Rows.{get_job-set_job}
use hire_ai.Job.Frame.{execute_job-Frame}
use hire_ai.Job.Reports.{IsFault, StatusOf, Settled, Reported, execute_job-Reported}
use hire_ai.Job.Execute.{
  Environment, ExecResult, returned, raised, aborted, job_missing, execute_job,
}
use hire_ai.Job.Dispatch.{
  is_idle, find_idle_worker, lease_duration, DispatchResult, nothing_dispatched, dispatched_job,
  dispatch_aborted, end_dispatch, roll_back, claim_job, release_worker, run_claimed, is_queued,
  dispatch_next,
}

abbrev pub get_worker : ℕ → JobDb → Option AiWorker
get_worker worker_id db = find (λ w. w.id == worker_id) db.workers

id_refl : (n : ℕ) → (n == n) ≡ true
id_refl n = ground arith

find-idle :
    (ws : List AiWorker) (w : AiWorker)
    → find (λ v. is_idle v.worker_status) ws ≡ some w
    → (v : AiWorker) × (find (λ x. x.id == w.id) ws ≡ some v)
find-idle [] w h = absurd (none-ne-some _ h)
find-idle (x ∷ ws) w h = elim (Bool-cases (x.id == w.id)) [
  | inl same ↦ (x, ap (λ b. if b then some x else find (λ (y : AiWorker). y.id == w.id) ws) same)
  | inr other ↦ elim (Bool-cases (is_idle x.worker_status)) [
    | inl free ↦
        let one : x ≡ w = some-injective _ _ (
          ap (λ b. if b then some x else find (λ (v : AiWorker). is_idle v.worker_status) ws)
            (sym free)
          ∙ h) in
        absurd
          (true_not_false (sym (id_refl x.id) ∙ ap (λ (y : AiWorker). x.id == y.id) one ∙ other))
    | inr taken ↦
        let next = find-idle ws w (
          ap (λ b. if b then some x else find (λ (v : AiWorker). is_idle v.worker_status) ws)
            (sym taken)
          ∙ h) in
        (
          next.0,
          ap (λ b. if b then some x else find (λ (y : AiWorker). y.id == w.id) ws) other ∙ next.1,
        )
  ]
]
  where
    true_not_false : true ≡ false → ⊥
    true_not_false e = cc (e)

module _ (worker_id : ℕ) (f : AiWorker → AiWorker) (keeps : (w : AiWorker) → (f w).id ≡ w.id) where
  find-update_worker :
      (ws : List AiWorker) (w : AiWorker)
      → find (λ v. v.id == worker_id) ws ≡ some w
      → find (λ v. v.id == worker_id) (update_worker worker_id f ws) ≡ some (f w)
  unfolding update_worker
  find-update_worker [] w h = absurd (none-ne-some _ h)
  find-update_worker (v ∷ ws) w h = elim (Bool-cases (v.id == worker_id)) [
    | inl same ↦ rw same (
        ap (λ b. if b then some (f v) else find (λ (x : AiWorker). x.id == worker_id) ws)
          (ap (λ i. i == worker_id) (keeps v) ∙ same)
        ∙ ap (λ x. some (f x)) (some-injective _ _ (rw same at h)))
    | inr other ↦ rw (other, other) (find-update_worker ws w (rw other at h))
  ]

abbrev busy_row : ℕ → AiWorker → AiWorker
busy_row job_id v = record v {
  worker_status = busy;
  current_job_id = some job_id;
  running_jobs = 1;
}

abbrev idle_row : AiWorker → AiWorker
idle_row v = record v { worker_status = idle; current_job_id = none; running_jobs = 0 }

module _ (env : Environment) (name : QueueType) (now trace_id : ℕ) (db : JobDb) where
  no_worker :
      find_idle_worker db ≡ none → dispatch_next env name now trace_id db ≡ (nothing_dispatched, db)
  unfolding dispatch_next
  no_worker e = rw (e, dispatch_next) refl

  module _ (w : AiWorker) (free : find_idle_worker db ≡ some w) where
    no_item :
        (dequeue_job name now db).0 ≡ none
        → dispatch_next env name now trace_id db ≡ (nothing_dispatched, (dequeue_job name now db).1)
    unfolding dispatch_next
    no_item e = rw (free, dispatch_next) (rw (e, dispatch_next) refl)

    stale_item :
        (item : QueueItem)
        → (dequeue_job name now db).0 ≡ some item
        → is_queued (get_job item.job_id (dequeue_job name now db).1) ≡ false
        → dispatch_next env name now trace_id db
          ≡ (nothing_dispatched, ack_job name item.job_id (dequeue_job name now db).1)
    unfolding dispatch_next
    stale_item item e old =
        rw (free, dispatch_next) (rw (e, dispatch_next) (rw (old, dispatch_next) refl))

    live_item :
        (item : QueueItem)
        → (dequeue_job name now db).0 ≡ some item
        → is_queued (get_job item.job_id (dequeue_job name now db).1) ≡ true
        → dispatch_next env name now trace_id db
          ≡ run_claimed env name now trace_id w item.job_id db (dequeue_job name now db).1
    unfolding dispatch_next
    live_item item e live =
        rw (free, dispatch_next) (rw (e, dispatch_next) (rw (live, dispatch_next) refl))

-- The job was there and QUEUED.
abbrev pub WasQueued : ℕ → JobDb → Type 0
WasQueued job_id before =
    (job : AiJob) × (get_job job_id before ≡ some job) × (has_status job.status queued ≡ true)

-- What a dispatch guarantees of the states before and after it, by its outcome.
abbrev pub Dispatched :
    Environment → QueueType → (now : ℕ) → JobDb → DispatchResult → JobDb → Type 0
Dispatched env name now before nothing_dispatched db =
    (db.jobs ≡ before.jobs) × (db.workers ≡ before.workers) × (db.results ≡ before.results)
Dispatched env name now before (dispatched_job job_id r) db =
    WasQueued job_id before
    × ((s : JobStatus) × StatusOf r s × Settled job_id s db)
    × ((w : AiWorker) × (v : AiWorker) × (find_idle_worker before ≡ some w)
        × (get_worker w.id db ≡ some v)
        × (v.worker_status ≡ idle)
        × (v.current_job_id ≡ none))
Dispatched env name now before (dispatch_aborted job_id e) db =
    WasQueued job_id before
    × IsFault env e
    × (db ≡ record before { queues = (dequeue_job name now before).1.queues })

was_queued :
    (o : Option AiJob)
    → is_queued o ≡ true
    → (job : AiJob) × (o ≡ some job) × (has_status job.status queued ≡ true)
was_queued none h = cc (h)
was_queued (some job) h = (job, refl, h)

-- The last step: what was executed decides between the release and the rollback.
module _ (env : Environment) (name : QueueType) (now : ℕ) (before db : JobDb) (w : AiWorker)
    (job_id : ℕ) (free : find_idle_worker before ≡ some w) (was : WasQueued job_id before) where
  end_dispatch-Dispatched :
      (start : JobDb) (r : ExecResult)
      → Reported env job_id start r db
      → db.queues ≡ (dequeue_job name now before).1.queues
      → (v : AiWorker) → find (λ x. x.id == w.id) db.workers ≡ some v
      → Dispatched env name now before
          (end_dispatch name w job_id before r db).0
          (end_dispatch name w job_id before r db).1
  unfolding end_dispatch roll_back release_worker ack_job get_job
  end_dispatch-Dispatched start (aborted e) h queues v there =
      (was, h.0, ap (λ q. record before { queues = q }) queues)
  end_dispatch-Dispatched start (returned o) h queues v there = (
    was,
    h,
    (w, idle_row v, free, find-update_worker w.id idle_row (λ x. refl) _ v there, refl, refl),
  )
  end_dispatch-Dispatched start (raised m) h queues v there = (
    was,
    h,
    (w, idle_row v, free, find-update_worker w.id idle_row (λ x. refl) _ v there, refl, refl),
  )
  end_dispatch-Dispatched start job_missing h queues v there = (
    was,
    h,
    (w, idle_row v, free, find-update_worker w.id idle_row (λ x. refl) _ v there, refl, refl),
  )

run_claimed-Dispatched :
    (env : Environment) (name : QueueType) (now trace_id : ℕ) (before : JobDb) (w : AiWorker)
    (job_id : ℕ)
    → find_idle_worker before ≡ some w
    → is_queued (get_job job_id before) ≡ true
    → Dispatched env name now before
        (run_claimed env name now trace_id w job_id before (dequeue_job name now before).1).0
        (run_claimed env name now trace_id w job_id before (dequeue_job name now before).1).1
unfolding run_claimed claim_job add_job_event get_job find_idle_worker dequeue_job
run_claimed-Dispatched env name now trace_id before w job_id free live =
    let db = (dequeue_job name now before).1 in
    let claimed = claim_job now w job_id db in
    let was = was_queued (get_job job_id before) live in
    let there =
      get_job-set_job job_id
        (λ j. record j {
          status = dispatched;
          worker_id = some w.id;
          lease_owner = some w.worker_name;
          lease_expires_at = some (now + lease_duration);
        })
        (λ j. refl) db was.0 was.1 in
    let reported = execute_job-Reported env now job_id trace_id claimed _ there in
    let frame = execute_job-Frame env now job_id trace_id claimed in
    let row = find-idle before.workers w free in
    let taken = find-update_worker w.id (busy_row job_id) (λ v. refl) db.workers row.0 row.1 in
    let still = ap (λ ws. find (λ (v : AiWorker). v.id == w.id) ws) frame.0 ∙ taken in
    end_dispatch-Dispatched env name now before (execute_job env now job_id trace_id claimed).1 w
      job_id free was claimed (execute_job env now job_id trace_id claimed).0 reported frame.1 _
      still

-- Whatever cancellations and faults the execution meets, `dispatch_next` ends in one of three ways. It
-- dispatches nothing and changes no job, worker or result. Or it executes a job that existed and was
-- QUEUED: then the job and its last result have the status that the execution reported, and the worker
-- that was idle before is idle again and holds no job. Or, only where the database raises, it aborts:
-- then the tables are those before the call, with the job still QUEUED, but its item has left the queue
-- as after any `dequeue`.
pub dispatch_next-Dispatched :
    (env : Environment) (name : QueueType) (now trace_id : ℕ) (db : JobDb)
    → Dispatched env name now db
        (dispatch_next env name now trace_id db).0
        (dispatch_next env name now trace_id db).1
unfolding dequeue_job get_job ack_job
dispatch_next-Dispatched env name now trace_id db = elim (Option-cases (find_idle_worker db)) [
  | inl e1 ↦ subst Ends (sym (no_worker env name now trace_id db e1)) (refl, refl, refl)
  | inr (w, free) ↦ elim (Option-cases (dequeue_job name now db).0) [
    | inl e2 ↦ subst Ends (sym (no_item env name now trace_id db w free e2)) (refl, refl, refl)
    | inr (item, e2) ↦
        elim (Bool-cases (is_queued (get_job item.job_id (dequeue_job name now db).1))) [
          | inr old ↦
              subst Ends (sym (stale_item env name now trace_id db w free item e2 old))
                (refl, refl, refl)
          | inl live ↦
              subst Ends (sym (live_item env name now trace_id db w free item e2 live))
                (run_claimed-Dispatched env name now trace_id db w item.job_id free live)
        ]
  ]
]
  where
    Ends : DispatchResult × JobDb → Type 0
    Ends r = Dispatched env name now db r.0 r.1
