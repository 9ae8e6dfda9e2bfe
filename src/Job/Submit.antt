-- ===== src/Job/Submit.antt =====
-- queue/queue_manager.py and services/distributed_execution_service.py. A throttled submission sleeps and
-- goes on, so only the rejection is an error. `request_hash` is a parameter (hashlib).
use hire_ai.Prelude.{
  ℕ, ◌+◌, ◌-◌, ◌*◌, String, Bool, Option, none, some, List, [], ◌∷◌, find, count_where, leb, ◌==◌,
  str_eq, if◌then◌else◌,
}
use hire_ai.Queue.{
  QueueType, default, priority, long_running, retry, dead_letter, sales, marketing, analytics,
  open_queue, get_depth, get_in_flight_count, Queues,
}
use hire_ai.Job.{AiJob, AiWorker, JobStatus, cancelled, validate_transition, JobResult, JobDb}
use hire_ai.Job.Repository.{get_job, NewJob, find_existing, create_job, mark_cancelled}
use hire_ai.Job.Retry.{replay_job}

pub data JobError : Type 0 where
  queue_full : (depth : ℕ) → JobError
  not_found_or_denied : JobError
  cannot_cancel : JobStatus → JobError
  several_results : JobError

pub data Reply {ℓ} (A : Type ℓ) : Type ℓ where
  done : A → Reply A
  refused : JobError → Reply A

abbrev pub reject_threshold : ℕ
reject_threshold = 25

abbrev pub throttle_threshold : ℕ
throttle_threshold = 15

pub data Pressure : Type 0 where
  rejected : (depth : ℕ) → Pressure
  throttled : (delay_tenths : ℕ) → Pressure
  accepted : Pressure

-- `QueueManager.check_backpressure`, with the sleep in tenths of a second
unfoldable pub check_backpressure : QueueType → Queues → Pressure
check_backpressure name q =
    if leb reject_threshold (get_depth name q)
    then rejected (get_depth name q)
    else if leb throttle_threshold (get_depth name q)
    then throttled (5 + (get_depth name q - throttle_threshold))
    else accepted

pub record QueueStats : Type 0 where
  pub partition : QueueType
  pub depth : ℕ
  pub in_flight_count : ℕ

pub record QueueSummary : Type 0 where
  pub partitions : List QueueStats
  pub total_depth : ℕ
  pub total_in_flight : ℕ
  pub jobs_per_minute : ℕ
  pub dlq_size : ℕ

abbrev pub all_partitions : List QueueType
all_partitions =
    default ∷ priority ∷ long_running ∷ retry ∷ dead_letter ∷ sales ∷ marketing ∷ analytics ∷ []

unfoldable pub collect_stats : List QueueType → Queues → List QueueStats × ℕ × ℕ
collect_stats [] q = ([], 0, 0)
collect_stats (name ∷ rest) q =
    let (stats, depth_sum, flight_sum) = collect_stats rest q in
    (
      record {
        partition = name;
        depth = get_depth name q;
        in_flight_count = get_in_flight_count name q;
      }
          ∷ stats,
      get_depth name q + depth_sum,
      get_in_flight_count name q + flight_sum,
    )

-- `QueueManager.get_statistics`, without its constants
unfoldable pub get_statistics : Queues → QueueSummary
get_statistics q =
    let (stats, depth_sum, flight_sum) = collect_stats all_partitions q in
    record {
      partitions = stats;
      total_depth = depth_sum;
      total_in_flight = flight_sum;
      jobs_per_minute = flight_sum * 5;
      dlq_size = get_depth dead_letter q;
    }

-- What the service uses of `RequestContext`.
pub record JobContext : Type 0 where
  pub tenant_id : ℕ
  pub user_id : ℕ

pub record Submission : Type 0 where
  pub job_type : String
  pub job_priority : ℕ
  pub queue_name : QueueType
  pub key : Option String

abbrev pub new_job : JobContext → (new_id : ℕ) → (request_hash : Option ℕ) → Submission → NewJob
new_job ctx new_id request_hash s = record {
  new_id = new_id;
  org_id = ctx.tenant_id;
  new_job_type = s.job_type;
  new_priority = s.job_priority;
  new_queue = s.queue_name;
  new_key = s.key;
  new_hash = request_hash;
  new_user = some ctx.user_id;
  new_source = "API";
}

module _ (md5 : Submission → ℕ) where
  abbrev pub hash_of : Submission → Option ℕ
  hash_of s = elim s.key [ none ↦ none | some key ↦ if str_eq key "" then none else some (md5 s) ]

  unfoldable pub submit_accepted :
      JobContext → (now new_id : ℕ) → Submission → JobDb → Reply AiJob × JobDb
  submit_accepted ctx now new_id s db = elim (find_existing s.key db) [
    | some existing ↦ (done existing, db)
    | none ↦
        let (job, db') = create_job now (new_job ctx new_id (hash_of s) s) db in (done job, db')
  ]

  -- `submit_job`; the depth is read from the queue that `RedisQueue(name)` opens. A throttled submission
  -- sleeps after the test, and `meanwhile` is what the other tasks of the process do before it goes on.
  unfoldable pub submit_job :
      (meanwhile : JobDb → JobDb)
      → JobContext
      → (now new_id : ℕ) → Submission
      → JobDb
      → Reply AiJob × JobDb
  submit_job meanwhile ctx now new_id s db =
      let opened = record db { queues = open_queue s.queue_name db.queues } in
      elim (check_backpressure s.queue_name opened.queues) [
        | rejected depth ↦ (refused (queue_full depth), opened)
        | throttled _ ↦ submit_accepted ctx now new_id s (meanwhile opened)
        | accepted ↦ submit_accepted ctx now new_id s opened
      ]

-- The guard of the four operations on one job.
unfoldable pub with_job :
    {A : Type 0} → JobContext → ℕ → JobDb → (AiJob → Reply A × JobDb) → Reply A × JobDb
with_job ctx job_id db k = elim (get_job job_id db) [
  | none ↦ (refused not_found_or_denied, db)
  | some job ↦
      if job.organization_id == ctx.tenant_id then k job else (refused not_found_or_denied, db)
]

-- `get_job_status`; the dictionary has the fields of the row.
unfoldable pub get_job_status : JobContext → ℕ → JobDb → Reply AiJob × JobDb
get_job_status ctx job_id db = with_job ctx job_id db (λ job. (done job, db))

abbrev pub shown_result : AiJob → Option JobResult → JobStatus × Option JobResult
shown_result job none = (job.status, none)
shown_result job (some r) = (r.result_status, some r)

-- `get_job_result`; `scalar_one_or_none` raises where the job has several results, after a retry.
unfoldable pub get_job_result :
    JobContext → ℕ → JobDb → Reply (JobStatus × Option JobResult) × JobDb
get_job_result ctx job_id db = with_job ctx job_id db (λ job. (
  if leb 2 (count_where (λ r. r.job_id == job_id) db.results)
      then refused several_results
      else done (shown_result job (find (λ r. r.job_id == job_id) db.results)),
  db,
))

-- `cancel_job`
unfoldable pub cancel_job : JobContext → (now : ℕ) → ℕ → JobDb → Reply ℕ × JobDb
cancel_job ctx now job_id db = with_job ctx job_id db (λ job.
    if validate_transition job.status cancelled
    then (done job_id, mark_cancelled now job_id db)
    else (refused (cannot_cancel job.status), db))

-- `retry_job`
unfoldable pub retry_job : JobContext → (now : ℕ) → ℕ → JobDb → Reply Bool × JobDb
retry_job ctx now job_id db =
    with_job ctx job_id db
      (λ job. let (replayed, db') = replay_job now job_id db in (done replayed, db'))

-- `list_workers`
unfoldable pub list_workers : JobContext → JobDb → List AiWorker
list_workers ctx db = db.workers

-- `get_queue_stats`
unfoldable pub get_queue_stats : JobContext → JobDb → QueueSummary
unfolding get_statistics
get_queue_stats ctx db = get_statistics db.queues
