-- ===== src/Job.antt =====
-- The job platform: models/ai_job.py, models/ai_job_result.py, models/ai_worker.py, the enums of
-- models/enums.py and jobs/job_state_machine.py. Identifiers are numbers, instants are ticks.
mod Tests
pub mod Repository
pub mod Retry
pub mod Execute
pub mod Dispatch
pub mod Submit
pub mod Health
pub mod Recovery
mod Rows
mod Keeps
mod Aborts
pub mod Frame
pub mod Retries
pub mod Submitting
pub mod Tenancy
pub mod Dispatching
pub mod Reports
use hire_ai.Prelude.{ℕ, String, Bool, true, false, ◌||◌, Option, List, [], ◌∷◌, any, ◌==◌}
use hire_ai.Queue.{QueueType, Queues}

-- `AIJobStatus`
pub data JobStatus : Type 0 where
  queued dispatched running completed failed cancelled retrying dead_lettered : JobStatus

abbrev pub status_code : JobStatus → ℕ
status_code queued = 0
status_code dispatched = 1
status_code running = 2
status_code completed = 3
status_code failed = 4
status_code cancelled = 5
status_code retrying = 6
status_code dead_lettered = 7

abbrev pub has_status : JobStatus → JobStatus → Bool
has_status a b = status_code a == status_code b

-- `JobStateMachine._VALID_TRANSITIONS`
abbrev pub valid_transitions : JobStatus → List JobStatus
valid_transitions queued = dispatched ∷ cancelled ∷ []
valid_transitions dispatched = running ∷ cancelled ∷ failed ∷ []
valid_transitions running = completed ∷ failed ∷ cancelled ∷ []
valid_transitions failed = retrying ∷ dead_lettered ∷ []
valid_transitions retrying = queued ∷ dead_lettered ∷ []
valid_transitions cancelled = []
valid_transitions completed = []
valid_transitions dead_lettered = queued ∷ []

-- `JobStateMachine.validate_transition`
abbrev pub validate_transition : JobStatus → JobStatus → Bool
validate_transition current target =
    has_status current target || any (λ s. has_status s target) (valid_transitions current)

-- `WorkerStatus`
pub data WorkerStatus : Type 0 where
  starting idle busy draining offline : WorkerStatus

-- `RetryStrategy`
pub data RetryStrategy : Type 0 where
  no_strategy fixed_delay exponential_backoff jitter : RetryStrategy

-- `JobFailureCategory`
pub data JobFailureCategory : Type 0 where
  llm_error tool_error timed_out invalid system_failure : JobFailureCategory

-- `AIJob`, the columns that the code under src/ sets
pub record AiJob : Type 0 where
  pub id : ℕ
  pub organization_id : ℕ
  pub job_type : String
  pub status : JobStatus
  pub job_priority : ℕ
  pub queue_name : QueueType
  pub idempotency_key : Option String
  pub request_hash : Option ℕ
  pub requested_by : Option ℕ
  pub created_by : Option ℕ
  pub source : String
  pub retry_count : ℕ
  pub max_retries : ℕ
  pub retry_budget : ℕ
  pub retry_consumed : ℕ
  pub progress_percent : ℕ
  pub total_steps : ℕ
  pub current_step : String
  pub worker_id : Option ℕ
  pub lease_owner : Option String
  pub lease_expires_at : Option ℕ
  pub started_at : Option ℕ
  pub completed_at : Option ℕ
  pub cancelled_at : Option ℕ
  pub execution_trace_id : Option ℕ

-- `AIWorker`
pub record AiWorker : Type 0 where
  pub id : ℕ
  pub hostname : String
  pub worker_name : String
  pub worker_status : WorkerStatus
  pub supported_agents : List String
  pub supported_models : List String
  pub supported_tools : List String
  pub max_parallel_jobs : ℕ
  pub running_jobs : ℕ
  pub current_job_id : Option ℕ
  pub heartbeat_at : ℕ
  pub shutdown_after : Option ℕ  -- the threshold that `shutdown_reason` names
  pub last_started_at : ℕ
  pub restart_count : ℕ

-- The `event` and `details_json` of `AIJobEvent`
pub data JobEvent : Type 0 where
  created_event : QueueType → JobEvent
  replayed_event : JobEvent
  recovered_event : (failed_worker : ℕ) → JobEvent
  dispatched_event : (worker_id : ℕ) → JobEvent
  started_event : (at : ℕ) → JobEvent
  progress_event : (num : ℕ) (step : String) (percent : ℕ) → JobEvent
  result_saved : (result_id : ℕ) → JobEvent
  cancelled_event : JobEvent
  failed_event : (error : String) → JobEvent
  retried_event : (delay_sec retry_num : ℕ) → JobEvent
  retries_exhausted : (retry_num : ℕ) → JobEvent
  routed_to_dlq : JobFailureCategory → JobEvent

-- The `output_json` of a result
pub data Output : Type 0 where
  no_output success_output cancelled_output : Output

-- `AIJobResult`
pub record JobResult : Type 0 where
  pub job_id : ℕ
  pub result_status : JobStatus
  pub output : Output
  pub error_message : Option String
  pub failure_category : Option JobFailureCategory
  pub execution_time_ms : ℕ
  pub token_usage : ℕ
  pub expires_at : ℕ

-- What the trace collector and the event bus are asked to write, in order.
pub data TraceEvent : Type 0 where
  trace_started : (trace_id organization_id : ℕ) → TraceEvent
  prompt_recorded retrieval_recorded planning_recorded policy_recorded tool_recorded :
      (trace_id : ℕ) → TraceEvent
  trace_completed trace_cancelled trace_failed : (trace_id : ℕ) → TraceEvent
  completion_emitted : (job_id trace_id : ℕ) → TraceEvent

-- The tables and the queues.
pub record JobDb : Type 0 where
  pub jobs : List AiJob
  pub workers : List AiWorker
  pub job_events : List (ℕ × JobEvent)
  pub results : List JobResult
  pub traces : List TraceEvent
  pub queues : Queues
