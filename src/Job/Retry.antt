-- ===== src/Job/Retry.antt =====
-- queue/retry_manager.py and queue/dead_letter_queue.py. `random.uniform(0.1, 1.0)` is a number of
-- thousandths, a parameter.
use hire_ai.Prelude.{
  ℕ, ◌+◌, ◌*◌, ◌/◌, ◌^◌, String, Bool, true, false, Option, none, some, leb, if◌then◌else◌,
}
use hire_ai.Queue.{default, retry, dead_letter, failed_data, retry_data, replayed_data}
use hire_ai.Job.{
  AiJob, queued, retrying, dead_lettered, has_status, RetryStrategy, no_strategy, fixed_delay,
  exponential_backoff, jitter, JobFailureCategory, no_output, retried_event, retries_exhausted,
  routed_to_dlq, replayed_event, JobDb,
}
use hire_ai.Job.Repository.{get_job, set_job, ack_job, enqueue_job, add_job_event, save_result}

-- The delay in seconds; `int` rounds down.
unfoldable pub retry_delay : RetryStrategy → (retry_num : ℕ) → (jitter_ms : ℕ) → ℕ
retry_delay no_strategy retry_num jitter_ms = 2
retry_delay fixed_delay retry_num jitter_ms = 3
retry_delay exponential_backoff retry_num jitter_ms = 2 ^ retry_num
retry_delay jitter retry_num jitter_ms = (2 ^ retry_num * 1000 + jitter_ms) / 1000

unfoldable pub move_to_dlq : (now : ℕ) → AiJob → JobDb → JobDb
move_to_dlq now job db = add_job_event job.id (retries_exhausted job.retry_count) (
    enqueue_job dead_letter now job.id job.job_priority failed_data (
      ack_job dead_letter job.id
        (set_job job.id (λ j. record j { status = dead_lettered; queue_name = dead_letter }) db)))

unfoldable pub schedule_retry : (now delay_sec : ℕ) → AiJob → JobDb → JobDb
schedule_retry now delay_sec job db =
    add_job_event job.id (retried_event delay_sec (job.retry_count + 1)) (
      enqueue_job retry now job.id job.job_priority (retry_data (job.retry_count + 1)) (
        ack_job retry job.id (
          set_job job.id
            (λ j. record j {
              retry_count = job.retry_count + 1;
              retry_consumed = job.retry_count + 1;
              status = retrying;
              queue_name = retry;
            })
            db)))

-- `RetryManager.process_failure`. The UPDATE also sets the object in the session, so that
-- `job.queue_name` is the new name when it is acknowledged.
unfoldable pub process_failure :
    (now : ℕ) → RetryStrategy → (jitter_ms : ℕ) → ℕ → JobDb → Option ℕ × JobDb
process_failure now strategy jitter_ms job_id db = elim (get_job job_id db) [
  | none ↦ (none, db)
  | some job ↦ if leb job.max_retries job.retry_count then (none, move_to_dlq now job db) else (
    some (retry_delay strategy (job.retry_count + 1) jitter_ms),
    schedule_retry now (retry_delay strategy (job.retry_count + 1) jitter_ms) job db,
  )
]

-- `DeadLetterQueue.route_to_dlq`
unfoldable pub route_to_dlq :
    (now : ℕ) → ℕ → (failure_reason : String) → JobFailureCategory → JobDb → JobDb
route_to_dlq now job_id failure_reason category db = add_job_event job_id (routed_to_dlq category) (
    save_result now job_id dead_lettered no_output (some failure_reason) (some category) 0 0
      (set_job job_id (λ j. record j { status = dead_lettered; queue_name = dead_letter }) db))

unfoldable pub resubmit : (now : ℕ) → AiJob → ℕ → JobDb → JobDb
resubmit now job job_id db = add_job_event job_id replayed_event (
    enqueue_job default now job_id job.job_priority replayed_data (
      ack_job dead_letter job_id (
        set_job job_id
          (λ j. record j {
            status = queued;
            queue_name = default;
            retry_count = 0;
            retry_consumed = 0;
          })
          db)))

-- `DeadLetterQueue.replay_job`
unfoldable pub replay_job : (now : ℕ) → ℕ → JobDb → Bool × JobDb
replay_job now job_id db = elim (get_job job_id db) [
  | none ↦ (false, db)
  | some job ↦
      if has_status job.status dead_lettered
      then (true, resubmit now job job_id db)
      else (false, db)
]
