-- ===== src/Job/Retries.antt =====
-- The retry budget: a failing job is retried until it is spent, then dead-lettered; a replay renews it.
use mathlib.Core.Path.{subst}
use hire_ai.Prelude.{
  ℕ, zero, suc, ◌+◌, ◌<◌, ◌≡◌, refl, sym, ap, ◌∙◌, true, false, Option, none, some, leb, ==_iff,
  arith,
}
use hire_ai.Queue.{default, retry, dead_letter}
use hire_ai.Queue.Waiting.{waiting, waiting-enqueue, waiting-enqueue_other, waiting-acknowledge}
use hire_ai.Job.{
  AiJob, queued, retrying, dead_lettered, has_status, RetryStrategy, exponential_backoff, jitter,
  JobDb,
}
use hire_ai.Job.Repository.{get_job, ack_job, enqueue_job, add_job_event}
use hire_ai.Job.Rows.{get_job-set_job, get_job-id}
use hire_ai.Job.Retry.{
  retry_delay, move_to_dlq, schedule_retry, process_failure, resubmit, replay_job,
}

-- A jitter below a whole second is rounded away by `int`: the JITTER delay is then the
-- EXPONENTIAL_BACKOFF delay.
retry_delay-jitter :
    (retry_num jitter_ms : ℕ)
    → jitter_ms < 1000
    → retry_delay jitter retry_num jitter_ms ≡ retry_delay exponential_backoff retry_num jitter_ms
unfolding retry_delay
retry_delay-jitter retry_num jitter_ms h = omega (arith, h)

abbrev pub retried_row : AiJob → AiJob
retried_row job = record job {
  retry_count = job.retry_count + 1;
  retry_consumed = job.retry_count + 1;
  status = retrying;
  queue_name = retry;
}

abbrev pub dead_row : AiJob → AiJob
dead_row job = record job { status = dead_lettered; queue_name = dead_letter }

module _ (now : ℕ) (strategy : RetryStrategy) (jitter_ms job_id : ℕ) where
  module _ (db : JobDb) (job : AiJob) (found : get_job job_id db ≡ some job) where
    same_id : job.id ≡ job_id
    same_id = (==_iff job.id job_id).0 (get_job-id job_id db job found)

    found_id : get_job job.id db ≡ some job
    found_id = subst (λ k. get_job k db ≡ some job) (sym same_id) found

    retries :
        leb job.max_retries job.retry_count ≡ false
        → process_failure now strategy jitter_ms job_id db ≡ (
          some (retry_delay strategy (job.retry_count + 1) jitter_ms),
          schedule_retry now (retry_delay strategy (job.retry_count + 1) jitter_ms) job db,
        )
    unfolding process_failure
    retries more = rw (found, process_failure) (rw (more, process_failure) refl)

    gives_up :
        leb job.max_retries job.retry_count ≡ true
        → process_failure now strategy jitter_ms job_id db ≡ (none, move_to_dlq now job db)
    unfolding process_failure
    gives_up spent = rw (found, process_failure) (rw (spent, process_failure) refl)

    process_failure_again :
        leb job.max_retries job.retry_count ≡ false
        → get_job job_id (process_failure now strategy jitter_ms job_id db).1
          ≡ some (retried_row job)
    unfolding schedule_retry add_job_event enqueue_job ack_job get_job
    process_failure_again more =
        subst (λ (r : Option ℕ × JobDb). get_job job_id r.1 ≡ some (retried_row job))
          (sym (retries more))
          (subst
            (λ k.
              get_job k
                (schedule_retry now (retry_delay strategy (job.retry_count + 1) jitter_ms) job db)
              ≡ some (retried_row job))
            same_id
            (get_job-set_job job.id
              (λ j. record j {
                retry_count = job.retry_count + 1;
                retry_consumed = job.retry_count + 1;
                status = retrying;
                queue_name = retry;
              })
              (λ j. refl) db job found_id))

    process_failure_last :
        leb job.max_retries job.retry_count ≡ true
        → get_job job_id (process_failure now strategy jitter_ms job_id db).1 ≡ some (dead_row job)
    unfolding move_to_dlq add_job_event enqueue_job ack_job get_job
    process_failure_last spent =
        subst (λ (r : Option ℕ × JobDb). get_job job_id r.1 ≡ some (dead_row job))
          (sym (gives_up spent))
          (subst (λ k. get_job k (move_to_dlq now job db) ≡ some (dead_row job)) same_id
            (get_job-set_job job.id
              (λ j. record j { status = dead_lettered; queue_name = dead_letter }) (λ j. refl) db
              job found_id))

  module _ (db : JobDb) (job : AiJob) (found : get_job job_id db ≡ some job) where
    -- The items of the job that wait for a retry and as dead letters.
    abbrev Waits : ℕ → (retries dead : ℕ) → JobDb → Type 0
    Waits k retries dead db' =
        (waiting retry k db'.queues ≡ retries) × (waiting dead_letter k db'.queues ≡ dead)

    process_failure_queued :
        leb job.max_retries job.retry_count ≡ false
        → Waits job_id
            (suc (waiting retry job_id db.queues))
            (waiting dead_letter job_id db.queues)
            (process_failure now strategy jitter_ms job_id db).1
    unfolding schedule_retry add_job_event enqueue_job ack_job
    process_failure_queued more =
        subst
          (λ (r : Option ℕ × JobDb).
            Waits job_id (suc (waiting retry job_id db.queues))
              (waiting dead_letter job_id db.queues) r.1)
          (sym (retries db job found more))
          (subst
            (λ k.
              Waits k (suc (waiting retry k db.queues)) (waiting dead_letter k db.queues)
                (schedule_retry now (retry_delay strategy (job.retry_count + 1) jitter_ms) job db))
            (same_id db job found)
            (
              waiting-enqueue retry now job.id job.job_priority _ _
                  ∙ ap suc (waiting-acknowledge retry retry job.id job.id db.queues),
              waiting-enqueue_other retry dead_letter now job.id job.job_priority _ _ refl
                  ∙ waiting-acknowledge retry dead_letter job.id job.id db.queues,
            ))

    process_failure_buried :
        leb job.max_retries job.retry_count ≡ true
        → Waits job_id
            (waiting retry job_id db.queues)
            (suc (waiting dead_letter job_id db.queues))
            (process_failure now strategy jitter_ms job_id db).1
    unfolding move_to_dlq add_job_event enqueue_job ack_job
    process_failure_buried spent =
        subst
          (λ (r : Option ℕ × JobDb).
            Waits job_id (waiting retry job_id db.queues)
              (suc (waiting dead_letter job_id db.queues)) r.1)
          (sym (gives_up db job found spent))
          (subst
            (λ k.
              Waits k (waiting retry k db.queues) (suc (waiting dead_letter k db.queues))
                (move_to_dlq now job db))
            (same_id db job found)
            (
              waiting-enqueue_other dead_letter retry now job.id job.job_priority _ _ refl
                  ∙ waiting-acknowledge dead_letter retry job.id job.id db.queues,
              waiting-enqueue dead_letter now job.id job.job_priority _ _
                  ∙ ap suc (waiting-acknowledge dead_letter dead_letter job.id job.id db.queues),
            ))

  -- The job fails that many times.
  abbrev pub fail_times : ℕ → JobDb → JobDb
  fail_times zero db = db
  fail_times (suc n) db = fail_times n (process_failure now strategy jitter_ms job_id db).1

  -- Dead-lettered after so many retries, each of which queued one item, and the last failure one more.
  abbrev pub DeadLettered : (max left : ℕ) → JobDb → JobDb → Type 0
  DeadLettered max left before db =
      (j : AiJob) × (get_job job_id db ≡ some j)
      × (j.status ≡ dead_lettered)
      × (j.queue_name ≡ dead_letter)
      × (j.retry_count ≡ max)
      × (waiting retry job_id db.queues ≡ waiting retry job_id before.queues + left)
      × (waiting dead_letter job_id db.queues ≡ suc (waiting dead_letter job_id before.queues))

  -- A job that keeps failing is put into the RETRY queue once by each failure until its retries are
  -- spent, and into the dead-letter queue by the next failure: after the retries it has left and one
  -- more failure, as many items as it had retries left were added to the one queue and one to the other,
  -- its status is DEAD_LETTER, and it was retried exactly `max_retries` times.
  pub fail_times-DeadLettered :
      (left : ℕ) (db : JobDb) (job : AiJob)
      → get_job job_id db ≡ some job
      → job.retry_count + left ≡ job.max_retries
      → DeadLettered job.max_retries left db (fail_times (suc left) db)
  fail_times-DeadLettered zero db job found h =
      let queued = process_failure_buried db job found (ground arith) in
      (
        dead_row job,
        process_failure_last db job found (ground arith),
        refl,
        refl,
        omega (arith, h),
        omega (arith, queued.0),
        queued.1,
      )
  fail_times-DeadLettered (suc left) db job found h =
      let queued = process_failure_queued db job found (ground arith) in
      let (j, there, dead, name, count, retried, buried) =
        fail_times-DeadLettered left (process_failure now strategy jitter_ms job_id db).1
          (retried_row job) (process_failure_again db job found (ground arith))
          (omega (arith, h)) in
      (j, there, dead, name, count, omega (arith, retried, queued.0), buried ∙ ap suc queued.1)

abbrev pub renewed_row : AiJob → AiJob
renewed_row job = record job {
  status = queued;
  queue_name = default;
  retry_count = 0;
  retry_consumed = 0;
}

pub replay_job_missing :
    (now job_id : ℕ) (db : JobDb)
    → get_job job_id db ≡ none
    → replay_job now job_id db ≡ (false, db)
unfolding replay_job
replay_job_missing now job_id db e = rw (e, replay_job) refl

pub refuses :
    (now job_id : ℕ) (db : JobDb) (job : AiJob)
    → get_job job_id db ≡ some job
    → has_status job.status dead_lettered ≡ false
    → replay_job now job_id db ≡ (false, db)
unfolding replay_job
refuses now job_id db job found alive = rw (found, replay_job) (rw (alive, replay_job) refl)

module _ (now job_id : ℕ) (db : JobDb) (job : AiJob) (found : get_job job_id db ≡ some job)
    (dead : has_status job.status dead_lettered ≡ true) where
  pub replays : replay_job now job_id db ≡ (true, resubmit now job job_id db)
  unfolding replay_job
  replays = rw (found, replay_job) (rw (dead, replay_job) refl)

  resubmit-row : get_job job_id (resubmit now job job_id db) ≡ some (renewed_row job)
  unfolding resubmit add_job_event enqueue_job ack_job get_job
  resubmit-row =
      get_job-set_job job_id
        (λ j. record j {
          status = queued;
          queue_name = default;
          retry_count = 0;
          retry_consumed = 0;
        })
        (λ j. refl) db job found

  resubmit-waiting :
      waiting default job_id (resubmit now job job_id db).queues
      ≡ suc (waiting default job_id db.queues)
  unfolding resubmit add_job_event enqueue_job ack_job
  resubmit-waiting =
      waiting-enqueue default now job_id job.job_priority _ _
      ∙ ap suc (waiting-acknowledge dead_letter default job_id job_id db.queues)

  -- A dead-lettered job that is replayed has one more item in the DEFAULT queue and a row that is QUEUED
  -- there, and its retry budget is fresh: when it keeps failing from then on it is retried `max_retries`
  -- times again, with one item of the RETRY queue each, before it is dead-lettered by the next failure.
  pub replay_job-renews :
      (later : ℕ) (strategy : RetryStrategy) (jitter_ms : ℕ)
      → ((replay_job now job_id db).0 ≡ true)
        × (get_job job_id (replay_job now job_id db).1 ≡ some (renewed_row job))
        × (waiting default job_id (replay_job now job_id db).1.queues
            ≡ suc (waiting default job_id db.queues))
        × DeadLettered later strategy jitter_ms job_id job.max_retries job.max_retries
            (replay_job now job_id db).1
            (fail_times later strategy jitter_ms job_id
              (suc job.max_retries)
              (replay_job now job_id db).1)
  replay_job-renews later strategy jitter_ms = rw replays (
    refl,
    resubmit-row,
    resubmit-waiting,
    fail_times-DeadLettered later strategy jitter_ms job_id job.max_retries
        (resubmit now job job_id db) (renewed_row job) resubmit-row (omega arith),
  )
