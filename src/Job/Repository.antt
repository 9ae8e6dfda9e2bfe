-- ===== src/Job/Repository.antt =====
-- repositories/job_repository.py: the jobs, their events and results, the workers, and the wrapper of the
-- queues. Primary keys are unique, so an UPDATE by one reaches at most one row: the first.
use hire_ai.Prelude.{
  ℕ, ◌+◌, ◌*◌, String, Bool, false, Option, none, some, List, [], ◌∷◌, ◌++◌, find, length, ◌==◌,
  str_eq, if◌then◌else◌,
}
use hire_ai.Queue.{
  QueueType, ItemData, job_type_data, QueueItem, open_queue, enqueue, dequeue, acknowledge, requeue,
}
use hire_ai.Job.{
  AiJob, AiWorker, JobStatus, queued, cancelled, cancelled_event, WorkerStatus, idle, JobEvent,
  created_event, result_saved, JobResult, Output, JobFailureCategory, JobDb,
}

-- UPDATE … WHERE id = …
unfoldable pub update_job : ℕ → (AiJob → AiJob) → List AiJob → List AiJob
update_job job_id f [] = []
update_job job_id f (j ∷ js) = if j.id == job_id then f j ∷ js else j ∷ update_job job_id f js

unfoldable pub update_worker : ℕ → (AiWorker → AiWorker) → List AiWorker → List AiWorker
update_worker worker_id f [] = []
update_worker worker_id f (w ∷ ws) =
    if w.id == worker_id then f w ∷ ws else w ∷ update_worker worker_id f ws

abbrev pub set_job : ℕ → (AiJob → AiJob) → JobDb → JobDb
set_job job_id f db = record db { jobs = update_job job_id f db.jobs }

abbrev pub set_worker : ℕ → (AiWorker → AiWorker) → JobDb → JobDb
set_worker worker_id f db = record db { workers = update_worker worker_id f db.workers }

-- `get_job`
unfoldable pub get_job : ℕ → JobDb → Option AiJob
get_job job_id db = find (λ j. j.id == job_id) db.jobs

abbrev pub has_key : String → AiJob → Bool
has_key key j = elim j.idempotency_key [ none ↦ false | some k ↦ str_eq k key ]

-- `get_job_by_idempotency_key`; the column is unique.
unfoldable pub get_job_by_idempotency_key : String → JobDb → Option AiJob
get_job_by_idempotency_key key db = find (has_key key) db.jobs

-- `add_job_event`
unfoldable pub add_job_event : ℕ → JobEvent → JobDb → JobDb
add_job_event job_id event db = record db { job_events = db.job_events ++ (job_id, event) ∷ [] }

-- `enqueue_job`, `dequeue_job`, `ack_job` and `requeue_job`
unfoldable pub enqueue_job : QueueType → (now : ℕ) → ℕ → (rank : ℕ) → ItemData → JobDb → JobDb
enqueue_job name now job_id rank item_data db = record db {
  queues = enqueue name now job_id rank item_data (open_queue name db.queues);
}

abbrev pub visibility_timeout : ℕ
visibility_timeout = 60

unfoldable pub dequeue_job : QueueType → (now : ℕ) → JobDb → Option QueueItem × JobDb
dequeue_job name now db =
    let (item, queues) = dequeue name now visibility_timeout (open_queue name db.queues) in
    (item, record db { queues = queues })

unfoldable pub ack_job : QueueType → ℕ → JobDb → JobDb
ack_job name job_id db = record db { queues = (acknowledge job_id (open_queue name db.queues)).1 }

unfoldable pub requeue_job : QueueType → (now : ℕ) → ℕ → (delay_sec : ℕ) → JobDb → Bool × JobDb
requeue_job name now job_id delay_sec db =
    let (found, queues) = requeue name now job_id delay_sec (open_queue name db.queues) in
    (found, record db { queues = queues })

-- The arguments of `create_job`; the identifier is a fresh one.
pub record NewJob : Type 0 where
  pub new_id : ℕ
  pub org_id : ℕ
  pub new_job_type : String
  pub new_priority : ℕ
  pub new_queue : QueueType
  pub new_key : Option String
  pub new_hash : Option ℕ
  pub new_user : Option ℕ
  pub new_source : String

abbrev pub fresh_job : NewJob → AiJob
fresh_job n = record {
  id = n.new_id;
  organization_id = n.org_id;
  job_type = n.new_job_type;
  status = queued;
  job_priority = n.new_priority;
  queue_name = n.new_queue;
  idempotency_key = n.new_key;
  request_hash = n.new_hash;
  requested_by = n.new_user;
  created_by = n.new_user;
  source = n.new_source;
  retry_count = 0;
  max_retries = 3;
  retry_budget = 3;
  retry_consumed = 0;
  progress_percent = 0;
  total_steps = 6;
  current_step = "Queued";
  worker_id = none;
  lease_owner = none;
  lease_expires_at = none;
  started_at = none;
  completed_at = none;
  cancelled_at = none;
  execution_trace_id = none;
}

-- The lookup under `if idempotency_key`; the empty string is false.
unfoldable pub find_existing : Option String → JobDb → Option AiJob
find_existing none db = none
find_existing (some key) db = if str_eq key "" then none else get_job_by_idempotency_key key db

unfoldable pub insert_job : (now : ℕ) → NewJob → JobDb → JobDb
insert_job now n db = add_job_event n.new_id (created_event n.new_queue) (
    enqueue_job n.new_queue now n.new_id n.new_priority (job_type_data n.new_job_type)
      (record db { jobs = db.jobs ++ fresh_job n ∷ [] }))

-- `create_job`
unfoldable pub create_job : (now : ℕ) → NewJob → JobDb → AiJob × JobDb
create_job now n db = elim (find_existing n.new_key db) [
  | some existing ↦ (existing, db)
  | none ↦ (fresh_job n, insert_job now n db)
]

-- The cancellation of a job, as `cancel_job` and the executor write it.
unfoldable pub mark_cancelled : (now : ℕ) → ℕ → JobDb → JobDb
mark_cancelled now job_id db =
    add_job_event job_id cancelled_event
      (set_job job_id (λ j. record j { status = cancelled; cancelled_at = some now }) db)

-- `update_job_status`
unfoldable pub update_job_status : ℕ → JobStatus → JobDb → JobDb
update_job_status job_id status db = set_job job_id (λ j. record j { status = status }) db

abbrev pub ticks_per_day : ℕ
ticks_per_day = 86400

-- `save_result`; the identifier of the result is its position.
unfoldable pub save_result :
    (now : ℕ)
    → ℕ
    → JobStatus
    → Output
    → Option String
    → Option JobFailureCategory
    → (execution_time_ms token_usage : ℕ) → JobDb
    → JobDb
save_result now job_id status output error_message category execution_time_ms token_usage db =
    let row : JobResult = record {
      job_id = job_id;
      result_status = status;
      output = output;
      error_message = error_message;
      failure_category = category;
      execution_time_ms = execution_time_ms;
      token_usage = token_usage;
      expires_at = now + 7 * ticks_per_day;
    } in
    add_job_event job_id (result_saved (length db.results)) (
      set_job job_id (λ j. record j { status = status; completed_at = some now })
        (record db { results = db.results ++ row ∷ [] }))

-- `register_worker`
unfoldable pub register_worker :
    (now new_id : ℕ)
    → (hostname worker_name : String) → (agents models tools : List String)
    → (max_parallel_jobs : ℕ) → JobDb
    → JobDb
register_worker now new_id hostname worker_name agents models tools max_parallel_jobs db =
    let w : AiWorker = record {
      id = new_id;
      hostname = hostname;
      worker_name = worker_name;
      worker_status = idle;
      supported_agents = agents;
      supported_models = models;
      supported_tools = tools;
      max_parallel_jobs = max_parallel_jobs;
      running_jobs = 0;
      current_job_id = none;
      heartbeat_at = now;
      shutdown_after = none;
      last_started_at = now;
      restart_count = 0;
    } in
    record db { workers = db.workers ++ w ∷ [] }

-- `update_worker_status`
unfoldable pub update_worker_status : ℕ → WorkerStatus → JobDb → JobDb
update_worker_status worker_id status db =
    set_worker worker_id (λ w. record w { worker_status = status }) db

-- `heartbeat_worker`, without the two load averages and the latency
unfoldable pub heartbeat_worker : (now worker_id running_jobs : ℕ) → JobDb → JobDb
heartbeat_worker now worker_id running_jobs db =
    set_worker worker_id (λ w. record w { heartbeat_at = now; running_jobs = running_jobs }) db
