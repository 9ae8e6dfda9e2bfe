-- ===== src/Job/Dispatch.antt =====
-- jobs/job_dispatcher.py. The SELECT of an idle worker has no order; the first one stands for it. The call
-- is given a session with nothing uncommitted: when the database raises, the tables go back to how the
-- call found them, while the queues, which are memory of the process, stay.
use hire_ai.Prelude.{ℕ, ◌+◌, String, Bool, true, false, Option, none, some, find, if◌then◌else◌}
use hire_ai.Queue.{QueueType}
use hire_ai.Job.{
  AiJob, queued, dispatched, has_status, AiWorker, WorkerStatus, idle, busy, dispatched_event,
  JobDb,
}
use hire_ai.Job.Repository.{get_job, set_job, set_worker, dequeue_job, ack_job, add_job_event}
use hire_ai.Job.Execute.{Environment, ExecResult, aborted, execute_job}

abbrev pub is_idle : WorkerStatus → Bool
is_idle idle = true
is_idle _ = false

unfoldable pub find_idle_worker : JobDb → Option AiWorker
find_idle_worker db = find (λ w. is_idle w.worker_status) db.workers

abbrev pub lease_duration : ℕ
lease_duration = 300

pub data DispatchResult : Type 0 where
  nothing_dispatched : DispatchResult
  dispatched_job : ℕ → ExecResult → DispatchResult  -- with what `execute_job` did
  dispatch_aborted : ℕ → String → DispatchResult

-- Steps 3 and 4: the lease of the job, and the busy worker.
unfoldable pub claim_job : (now : ℕ) → AiWorker → ℕ → JobDb → JobDb
claim_job now w job_id db = add_job_event job_id (dispatched_event w.id) (
    set_worker w.id
      (λ v. record v { worker_status = busy; current_job_id = some job_id; running_jobs = 1 })
      (set_job job_id
        (λ j. record j {
          status = dispatched;
          worker_id = some w.id;
          lease_owner = some w.worker_name;
          lease_expires_at = some (now + lease_duration);
        })
        db))

-- The `finally` block.
unfoldable pub release_worker : QueueType → AiWorker → ℕ → JobDb → JobDb
release_worker name w job_id db = ack_job name job_id (
    set_worker w.id
      (λ v. record v { worker_status = idle; current_job_id = none; running_jobs = 0 }) db)

-- The rollback of a session whose tables were `committed`.
unfoldable pub roll_back : (committed : JobDb) → JobDb → JobDb
roll_back committed db = record committed { queues = db.queues }

-- After an error of the database the writes of the `finally` block raise too.
unfoldable pub end_dispatch :
    QueueType → AiWorker → ℕ → (committed : JobDb) → ExecResult → JobDb → DispatchResult × JobDb
end_dispatch name w job_id committed (aborted e) db =
    (dispatch_aborted job_id e, roll_back committed db)
end_dispatch name w job_id committed result db =
    (dispatched_job job_id result, release_worker name w job_id db)

unfoldable pub run_claimed :
    Environment
    → QueueType
    → (now trace_id : ℕ) → AiWorker
    → ℕ
    → (committed : JobDb) → JobDb
    → DispatchResult × JobDb
run_claimed env name now trace_id w job_id committed db =
    let executed = execute_job env now job_id trace_id (claim_job now w job_id db) in
    end_dispatch name w job_id committed executed.0 executed.1

abbrev pub is_queued : Option AiJob → Bool
is_queued none = false
is_queued (some job) = has_status job.status queued

-- `dispatch_next`
unfoldable pub dispatch_next :
    Environment → QueueType → (now trace_id : ℕ) → JobDb → DispatchResult × JobDb
dispatch_next env name now trace_id db = elim (find_idle_worker db) [
  | none ↦ (nothing_dispatched, db)
  | some w ↦
      let polled = dequeue_job name now db in
      elim polled.0 [
        | none ↦ (nothing_dispatched, polled.1)
        | some item ↦
            if is_queued (get_job item.job_id polled.1)
            then run_claimed env name now trace_id w item.job_id db polled.1
            else (nothing_dispatched, ack_job name item.job_id polled.1)
      ]
]
