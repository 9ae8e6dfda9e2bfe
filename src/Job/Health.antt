-- ===== src/Job/Health.antt =====
-- workers/worker_health.py
use hire_ai.Prelude.{
  ℕ, ◌+◌, Bool, true, false, not, ◌&&◌, ◌||◌, none, some, List, [], ◌∷◌, ◌++◌, filter, length, ltb,
  if◌then◌else◌,
}
use hire_ai.Job.{
  AiJob, AiWorker, WorkerStatus, offline, queued, dispatched, running, has_status, recovered_event,
  JobDb,
}
use hire_ai.Job.Repository.{get_job, set_job, set_worker, requeue_job, add_job_event}

abbrev pub is_offline : WorkerStatus → Bool
is_offline offline = true
is_offline _ = false

-- `heartbeat_at < now - threshold` and not yet offline
abbrev pub missed_heartbeat : (now threshold_sec : ℕ) → AiWorker → Bool
missed_heartbeat now threshold_sec w =
    ltb (w.heartbeat_at + threshold_sec) now && not (is_offline w.worker_status)

unfoldable pub release_lease : (now : ℕ) → (failed_worker : ℕ) → AiJob → ℕ → JobDb → JobDb
release_lease now failed_worker job job_id db =
    add_job_event job_id (recovered_event failed_worker)
      (requeue_job job.queue_name now job_id 0 (
        set_job job_id
          (λ j. record j {
            status = queued;
            worker_id = none;
            lease_owner = none;
            lease_expires_at = none;
            retry_count = job.retry_count + 1;
          })
          db)).1

-- The job that an offlined worker held goes back to its queue.
unfoldable pub recover_job : (now : ℕ) → AiWorker → JobDb → List ℕ × JobDb
recover_job now w db = elim w.current_job_id [
  | none ↦ ([], db)
  | some job_id ↦ elim (get_job job_id db) [
    | none ↦ ([], db)
    | some job ↦
        if has_status job.status dispatched || has_status job.status running
        then (job_id ∷ [], release_lease now w.id job job_id db)
        else ([], db)
  ]
]

unfoldable pub offline_all : (now threshold_sec : ℕ) → List AiWorker → JobDb → List ℕ × JobDb
offline_all now threshold_sec [] db = ([], db)
offline_all now threshold_sec (w ∷ rest) db =
    let (recovered, db') = recover_job now w (
      set_worker w.id
        (λ v. record v { worker_status = offline; shutdown_after = some threshold_sec }) db) in
    let (others, db'') = offline_all now threshold_sec rest db' in (recovered ++ others, db'')

pub record RecoveryReport : Type 0 where
  pub offlined_workers_count : ℕ
  pub recovered_job_ids : List ℕ

-- `monitor_heartbeats_and_recover`
unfoldable pub monitor_heartbeats_and_recover :
    (now threshold_sec : ℕ) → JobDb → RecoveryReport × JobDb
monitor_heartbeats_and_recover now threshold_sec db =
    let dead_workers = filter (missed_heartbeat now threshold_sec) db.workers in
    let (recovered, db') = offline_all now threshold_sec dead_workers db in
    (record { offlined_workers_count = length dead_workers; recovered_job_ids = recovered }, db')
