-- ===== src/Job/Tests.antt =====
-- The laws of the job platform at a small database: one worker, and one job of organization 7.
use hire_ai.Prelude.{
  All, filter, ◌≡◌, refl, ◌⊎◌, ℕ, suc, if◌then◌else◌, true, false, none, some, [], ◌∷◌, ◌==◌,
}
use hire_ai.Queue.{
  QueueItem, default, failed_data, open_queue, get_depth, items_of, take_first, dequeue, enqueue,
  sort_items, insert_item, put_items, sorts_before,
}
use hire_ai.Job.{
  running, AiJob, AiWorker, JobStatus, JobDb, idle, queued, dead_lettered, has_status,
  RetryStrategy, jitter, exponential_backoff, success_output,
}
use hire_ai.Job.Repository.{
  get_job, dequeue_job, find_existing, create_job, insert_job, enqueue_job, add_job_event,
  get_job_by_idempotency_key, fresh_job,
}
use hire_ai.Job.Retry.{replay_job}
use hire_ai.Job.Execute.{
  Environment, database_error, returned, execute_job, conclude, run_body, start, run_stages,
  run_stage, finish, arrive, is_cancelled, record_trace, update_progress,
}
use hire_ai.Job.Dispatch.{
  dispatch_next, dispatched_job, dispatch_aborted, find_idle_worker, run_claimed, claim_job,
  end_dispatch, release_worker, roll_back,
}
use hire_ai.Job.Submit.{
  JobContext, Submission, submit_job, submit_accepted, check_backpressure, done, new_job,
}
use hire_ai.Job.Health.{missed_heartbeat, monitor_heartbeats_and_recover}
use hire_ai.Job.Recovery.{Freed, monitor_heartbeats-Freed}
use hire_ai.Job.Reports.{Reported, execute_job-Reported}
use hire_ai.Job.Dispatching.{Dispatched, dispatch_next-Dispatched}
use hire_ai.Job.Retries.{
  DeadLettered, fail_times, fail_times-DeadLettered, renewed_row, replay_job-renews,
}
use hire_ai.Queue.Waiting.{waiting}
use hire_ai.Job.Submitting.{HasRoom, opened_for, submit_job_idem}
use hire_ai.Job.Tenancy.{cancel_cmd, run_command, run_command_isolated}

abbrev job_row : JobStatus → AiJob
job_row status = record {
  id = 1;
  organization_id = 7;
  job_type = "SALES";
  status = status;
  job_priority = 10;
  queue_name = default;
  idempotency_key = none;
  request_hash = none;
  requested_by = none;
  created_by = none;
  source = "API";
  retry_count = 0;
  max_retries = 3;
  retry_budget = 3;
  retry_consumed = 0;
  progress_percent = 0;
  total_steps = 6;
  current_step = "Queued";
  worker_id = none;
  lease_owner = none;
  lease_expires_at = none;
  started_at = none;
  completed_at = none;
  cancelled_at = none;
  execution_trace_id = none;
}

abbrev worker_row : AiWorker
worker_row = record {
  id = 3;
  hostname = "h";
  worker_name = "w";
  worker_status = idle;
  supported_agents = [];
  supported_models = [];
  supported_tools = [];
  max_parallel_jobs = 1;
  running_jobs = 0;
  current_job_id = none;
  heartbeat_at = 0;
  shutdown_after = none;
  last_started_at = 0;
  restart_count = 0;
}

abbrev queued_item : QueueItem
queued_item = record {
  job_id = 1;
  priority = 10;
  item_data = failed_data;
  queue_type = default;
  enqueued_at = 0;
  invisible_until = 0;
  attempts = 0;
}

abbrev database : JobStatus → JobDb
database status = record {
  jobs = job_row status ∷ [];
  workers = worker_row ∷ [];
  job_events = [];
  results = [];
  traces = [];
  queues = record { memory_queues = (default, queued_item ∷ []) ∷ []; in_flight = [] };
}

-- A cancellation arrives before the third checkpoint, and the fourth would fail.
abbrev rough : Environment
rough = record {
  cancel_arrives = λ num. num == 3;
  trace_starts = true;
  fault = λ num. if num == 4 then some (database_error "connection lost") else none;
  closing_fault = none;
}

there : (status : JobStatus) → get_job 1 (database status) ≡ some (job_row status)
unfolding get_job
there status = refl

execute_job-Reported_example :
    Reported rough 1
      (database queued)
      (execute_job rough 5 1 9 (database queued)).0
      (execute_job rough 5 1 9 (database queued)).1
execute_job-Reported_example =
    execute_job-Reported rough 5 1 9 (database queued) (job_row queued) (there queued)

abbrev calm : Environment
calm = record {
  cancel_arrives = λ num. false;
  trace_starts = true;
  fault = λ num. none;
  closing_fault = none;
}

abbrev dispatched_db : JobDb
dispatched_db = (dispatch_next calm default 5 9 (database queued)).1

dispatches :
    dispatch_next calm default 5 9 (database queued)
    ≡ (dispatched_job 1 (returned success_output), dispatched_db)
unfolding dispatch_next find_idle_worker dequeue_job dequeue take_first items_of open_queue get_job
    run_claimed end_dispatch release_worker claim_job add_job_event execute_job conclude run_body
    start run_stages run_stage finish arrive is_cancelled update_progress record_trace
    hire_ai.Job.Repository.update_job
dispatches = refl

-- The worker of a dispatch in which the database fails at the fourth checkpoint.
abbrev broken : Environment
broken = record rough { cancel_arrives = λ num. false }

aborts : dispatch_next broken default 5 9 (database queued) ≡ (
  dispatch_aborted 1 "connection lost",
  record (database queued) { queues = (dequeue_job default 5 (database queued)).1.queues },
)
unfolding dispatch_next find_idle_worker dequeue_job dequeue take_first items_of open_queue get_job
    run_claimed end_dispatch roll_back claim_job add_job_event execute_job conclude run_body start
    run_stages run_stage finish arrive is_cancelled update_progress record_trace
    hire_ai.Job.Repository.update_job
aborts = refl

dispatch_next-Dispatched_example :
    Dispatched broken default 5
      (database queued)
      (dispatch_next broken default 5 9 (database queued)).0
      (dispatch_next broken default 5 9 (database queued)).1
dispatch_next-Dispatched_example = dispatch_next-Dispatched broken default 5 9 (database queued)

fail_times-DeadLettered_example :
    DeadLettered 5 jitter 700 1 3 3
      (database queued)
      (fail_times 5 jitter 700 1 4 (database queued))
fail_times-DeadLettered_example =
    fail_times-DeadLettered 5 jitter 700 1 3 (database queued) (job_row queued) (there queued) refl

replay_job-renews_example :
    ((replay_job 5 1 (database dead_lettered)).0 ≡ true)
    × (get_job 1 (replay_job 5 1 (database dead_lettered)).1
        ≡ some (renewed_row (job_row dead_lettered)))
    × (waiting default 1 (replay_job 5 1 (database dead_lettered)).1.queues
        ≡ suc (waiting default 1 (database dead_lettered).queues))
    × DeadLettered 6 jitter 700 1 3 3
        (replay_job 5 1 (database dead_lettered)).1
        (fail_times 6 jitter 700 1 4 (replay_job 5 1 (database dead_lettered)).1)
replay_job-renews_example =
    replay_job-renews 5 1 (database dead_lettered) (job_row dead_lettered) (there dead_lettered)
      refl 6 jitter 700

abbrev ctx : JobContext
ctx = record { tenant_id = 7; user_id = 5 }

abbrev other_ctx : JobContext
other_ctx = record { tenant_id = 8; user_id = 6 }

abbrev no_hash : Submission → ℕ
no_hash s = 0

abbrev keyed : Submission
keyed = record { job_type = "SALES"; job_priority = 10; queue_name = default; key = some "k" }

abbrev keyed_job : AiJob
keyed_job = fresh_job (new_job ctx 2 (some 0) keyed)

-- Nothing happens in between.
abbrev quiet : JobDb → JobDb
quiet d = d

abbrev submitted : JobDb
submitted = (submit_job no_hash quiet ctx 5 2 keyed (database queued)).1

submits : submit_job no_hash quiet ctx 5 2 keyed (database queued) ≡ (done keyed_job, submitted)
unfolding submit_job check_backpressure get_depth items_of open_queue submit_accepted find_existing
    get_job_by_idempotency_key create_job
submits = refl

has_room : HasRoom default submitted
unfolding submit_job check_backpressure get_depth items_of open_queue submit_accepted find_existing
    get_job_by_idempotency_key create_job insert_job enqueue_job add_job_event enqueue put_items
    sort_items insert_item sorts_before
has_room = refl

submit_job_idem_example :
    (submit_job no_hash quiet other_ctx 6 4 keyed submitted
      ≡ (done keyed_job, opened_for default submitted))
    ⊎ (submit_job no_hash quiet other_ctx 6 4 keyed submitted
        ≡ (done keyed_job, opened_for default submitted))
submit_job_idem_example =
    submit_job_idem no_hash quiet quiet quiet ctx other_ctx 5 2 6 4 keyed "k" (database queued)
      submitted keyed_job refl refl (λ d j h. h) (λ d j h. h) submits has_room

run_command_isolated_example :
    get_job 1 (run_command other_ctx 1 (cancel_cmd 5) (database queued)) ≡ some (job_row queued)
run_command_isolated_example =
    run_command_isolated other_ctx 1 1 (cancel_cmd 5) (database queued) (job_row queued)
      (there queued) refl

-- The worker holds the job that is running.
abbrev crashed : JobDb
crashed = record (database running) { workers = record worker_row { current_job_id = some 1 } ∷ [] }

monitor_heartbeats-Freed_example :
    All
      (Freed (monitor_heartbeats_and_recover 200 90 crashed).1)
      (filter (missed_heartbeat 200 90) crashed.workers)
monitor_heartbeats-Freed_example = monitor_heartbeats-Freed 200 90 crashed
