-- ===== src/Job/Execute.antt =====
-- jobs/job_executor.py. Cancellations that reach the job between two checkpoints, whether the trace
-- could be started (`TraceCollector.start_execution` returns None when not), and the exceptions of the
-- writes, are the environment. After an exception of the database the session refuses every write until it
-- is rolled back, so the handlers raise as well. The other methods of the trace collector never raise.
use hire_ai.Prelude.{
  ℕ, String, Bool, true, false, Option, none, some, List, [], ◌∷◌, ◌++◌, if◌then◌else◌,
}
use hire_ai.Job.{
  AiJob, running, completed, cancelled, failed, has_status, system_failure, Output, no_output,
  success_output, cancelled_output, started_event, progress_event, failed_event, TraceEvent,
  trace_started, prompt_recorded, retrieval_recorded, planning_recorded, policy_recorded,
  tool_recorded, trace_completed, trace_cancelled, trace_failed, completion_emitted, JobDb,
}
use hire_ai.Job.Repository.{get_job, set_job, add_job_event, save_result, mark_cancelled}

-- An exception of Python code leaves the session usable, one of the database does not.
pub data Fault : Type 0 where
  code_error : String → Fault
  database_error : String → Fault

pub record Environment : Type 0 where
  pub cancel_arrives : ℕ → Bool  -- before the test of the checkpoint
  pub trace_starts : Bool
  pub fault : ℕ → Option Fault  -- raised by what comes after it
  pub closing_fault : Option String  -- of the database, in the writes of a handler

pub data Stop : Type 0 where
  cancelled_stop : Stop  -- `JobCancellationException`
  fault_stop : Fault → Stop

-- Of the `try` body: it goes on, or was left, with or without a trace.
pub data Progress : Type 0 where
  going : JobDb → Progress
  stopped : Stop → (traced : Bool) → JobDb → Progress

pub data ExecResult : Type 0 where
  returned : Output → ExecResult
  raised : String → ExecResult
  aborted : String → ExecResult  -- raised, and the session is to be rolled back
  job_missing : ExecResult

unfoldable pub record_trace : TraceEvent → JobDb → JobDb
record_trace event db = record db { traces = db.traces ++ event ∷ [] }

-- `is_cancelled`
unfoldable pub is_cancelled : ℕ → JobDb → Bool
is_cancelled job_id db = elim (get_job job_id db) [
  | none ↦ false
  | some job ↦ has_status job.status cancelled
]

-- `update_progress`
unfoldable pub update_progress : ℕ → (percent : ℕ) → (step : String) → (num : ℕ) → JobDb → JobDb
update_progress job_id percent step num db =
    add_job_event job_id (progress_event num step percent) (
      set_job job_id
        (λ j. record j { progress_percent = percent; current_step = step; total_steps = 6 }) db)

pub record Stage : Type 0 where
  pub num : ℕ
  pub percent : ℕ
  pub step : String
  pub recorded : ℕ → TraceEvent

abbrev pub stages : List Stage
stages =
    record { num = 1; percent = 20; step = "Compiling Prompt Template"; recorded = prompt_recorded }
    ∷ record {
      num = 2;
      percent = 40;
      step = "Retrieving CRM & Memory context";
      recorded = retrieval_recorded;
    }
    ∷ record {
      num = 3;
      percent = 60;
      step = "Building Execution Plan";
      recorded = planning_recorded;
    }
    ∷ record {
      num = 4;
      percent = 80;
      step = "Verifying safety compliance policies";
      recorded = policy_recorded;
    }
    ∷ record {
      num = 5;
      percent = 90;
      step = "Executing registered tools";
      recorded = tool_recorded;
    }
    ∷ []

module _ (env : Environment) (now job_id : ℕ) where
  -- What other transactions did to the job by this checkpoint.
  unfoldable pub arrive : ℕ → JobDb → JobDb
  arrive num db = if env.cancel_arrives num then mark_cancelled now job_id db else db

  -- A checkpoint: progress, the test for cancellation, and the record of the stage.
  unfoldable pub run_stage : (trace_id : ℕ) → Stage → JobDb → Progress
  run_stage trace_id s db =
      let db' = arrive s.num (update_progress job_id s.percent s.step s.num db) in
      if is_cancelled job_id db' then stopped cancelled_stop true db' else elim (env.fault s.num) [
        | none ↦ going (record_trace (s.recorded trace_id) db')
        | some e ↦ stopped (fault_stop e) true (record_trace (s.recorded trace_id) db')
      ]

  unfoldable pub run_stages : (trace_id : ℕ) → List Stage → JobDb → Progress
  run_stages trace_id [] db = going db
  run_stages trace_id (s ∷ rest) db = elim (run_stage trace_id s db) [
    | going db' ↦ run_stages trace_id rest db'
    | stopped stop traced db' ↦ stopped stop traced db'
  ]

  -- Checkpoint 6: no test for cancellation.
  unfoldable pub finish : (trace_id : ℕ) → JobDb → Progress
  finish trace_id db =
      let db' = record_trace (completion_emitted job_id trace_id) (
        record_trace (trace_completed trace_id)
          (arrive 6 (update_progress job_id 100 "Completed" 6 db))) in
      elim (env.fault 6) [
        | none ↦ going (save_result now job_id completed success_output none none 100 150 db')
        | some e ↦ stopped (fault_stop e) true db'
      ]

  -- Checkpoint 0, and the start of the trace; without one, `trace.id` raises.
  unfoldable pub start : (trace_id : ℕ) → AiJob → JobDb → Progress
  start trace_id job db =
      let db' = arrive 0 db in
      if is_cancelled job_id db'
      then stopped cancelled_stop false db'
      else let db'' =
          add_job_event job_id (started_event now)
            (set_job job_id (λ j. record j { status = running; started_at = some now }) db') in
        if env.trace_starts
        then going (
            set_job job_id (λ j. record j { execution_trace_id = some trace_id })
              (record_trace (trace_started trace_id job.organization_id) db''))
        else stopped (fault_stop (code_error "'NoneType' object has no attribute 'id'")) false db''

  unfoldable pub run_body : (trace_id : ℕ) → AiJob → JobDb → Progress
  run_body trace_id job db = elim (start trace_id job db) [
    | stopped stop traced db' ↦ stopped stop traced db'
    | going db' ↦ elim (run_stages trace_id stages db') [
      | stopped stop traced db'' ↦ stopped stop traced db''
      | going db'' ↦ finish trace_id db''
    ]
  ]

abbrev pub close_trace : TraceEvent → (traced : Bool) → JobDb → JobDb
close_trace event traced db = if traced then record_trace event db else db

module _ (now job_id : ℕ) where
  -- `except JobCancellationException`
  unfoldable pub handle_cancellation : (trace_id : ℕ) → (traced : Bool) → JobDb → JobDb
  handle_cancellation trace_id traced db = mark_cancelled now job_id (
      close_trace (trace_cancelled trace_id) traced (
        save_result now job_id cancelled cancelled_output (some "Job cancelled by user request.")
          none 0 0 db))

  -- `except Exception`
  unfoldable pub handle_failure : (trace_id : ℕ) → String → (traced : Bool) → JobDb → JobDb
  handle_failure trace_id error traced db = add_job_event job_id (failed_event error) (
      set_job job_id (λ j. record j { status = failed })
        (close_trace (trace_failed trace_id) traced
          (save_result now job_id failed no_output (some error) (some system_failure) 0 0 db)))

  -- The handlers; the tables of an aborted execution are those that the rollback discards.
  unfoldable pub conclude : Environment → (trace_id : ℕ) → Progress → ExecResult × JobDb
  conclude env trace_id (going db) = (returned success_output, db)
  conclude env trace_id (stopped cancelled_stop traced db) = elim env.closing_fault [
    | none ↦ (returned cancelled_output, handle_cancellation trace_id traced db)
    | some e ↦ (aborted e, db)
  ]
  conclude env trace_id (stopped (fault_stop (code_error error)) traced db) =
      elim env.closing_fault [
        | none ↦ (raised error, handle_failure trace_id error traced db)
        | some e ↦ (aborted e, db)
      ]
  conclude env trace_id (stopped (fault_stop (database_error e)) traced db) = (aborted e, db)

-- `execute_job`; the identifier of the trace is a fresh one.
unfoldable pub execute_job : Environment → (now job_id trace_id : ℕ) → JobDb → ExecResult × JobDb
execute_job env now job_id trace_id db = elim (get_job job_id db) [
  | none ↦ (job_missing, db)
  | some job ↦ conclude now job_id env trace_id (run_body env now job_id trace_id job db)
]
