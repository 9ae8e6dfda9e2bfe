-- ===== src/Job/Keeps.antt =====
-- What `execute_job` never changes: a predicate that its basic writes keep, it keeps.
use mathlib.Core.Path.{subst}
use hire_ai.Prelude.{
  ℕ, String, ◌≡◌, refl, sym, Bool, true, false, Option, none, some, List, [], ◌∷◌, if◌then◌else◌,
  Option-cases, inl, inr,
}
use hire_ai.Job.{
  AiJob, JobStatus, running, started_event, trace_started, trace_completed, completion_emitted,
  JobEvent, TraceEvent, JobResult, JobDb, Output, JobFailureCategory, success_output, completed,
}
use hire_ai.Job.Repository.{get_job, set_job, add_job_event, save_result, mark_cancelled}
use hire_ai.Job.Execute.{
  Environment, Fault, code_error, database_error, cancelled_stop, fault_stop, Progress, going,
  stopped, ExecResult, record_trace, is_cancelled, update_progress, Stage, stages, arrive,
  run_stage, run_stages, finish, start, run_body, handle_cancellation, handle_failure, conclude,
  execute_job, close_trace,
}

-- The predicate holds wherever the body is.
abbrev pub Both : (JobDb → Type 0) → (JobDb → Type 0) → Progress → Type 0
Both P Q (going db) = P db
Both P Q (stopped stop traced db) = Q db

module _ (env : Environment) (now job_id trace_id : ℕ) (db : JobDb) where
  execute_job_missing :
      get_job job_id db ≡ none
      → execute_job env now job_id trace_id db ≡ (ExecResult.job_missing, db)
  unfolding execute_job
  execute_job_missing e = rw (e, execute_job)

  pub execute_job_found :
      (job : AiJob)
      → get_job job_id db ≡ some job
      → execute_job env now job_id trace_id db
        ≡ conclude now job_id env trace_id (run_body env now job_id trace_id job db)
  unfolding execute_job
  execute_job_found job e = rw (e, execute_job)

module _ (env : Environment) (now job_id : ℕ) (P : JobDb → Type 0)
    (on_job : (f : AiJob → AiJob)
      → ((j : AiJob) → (f j).id ≡ j.id)
      → (db : JobDb) → P db
      → P (set_job job_id f db))
    (on_event : (e : JobEvent) (db : JobDb) → P db → P (add_job_event job_id e db))
    (on_trace : (e : TraceEvent) (db : JobDb) → P db → P (record_trace e db)) where
  pub mark_cancelled-keeps : (db : JobDb) → P db → P (mark_cancelled now job_id db)
  unfolding mark_cancelled
  mark_cancelled-keeps db h = on_event _ _ (on_job _ (λ j. refl) db h)

  pub arrive-keeps : (num : ℕ) (db : JobDb) → P db → P (arrive env now job_id num db)
  unfolding arrive
  arrive-keeps num db h = after (env.cancel_arrives num)
    where
      after : (b : Bool) → P (if b then mark_cancelled now job_id db else db)
      after true = mark_cancelled-keeps db h
      after false = h

  pub update_progress-keeps :
      (percent : ℕ) (step : String) (num : ℕ) (db : JobDb)
      → P db
      → P (update_progress job_id percent step num db)
  unfolding update_progress
  update_progress-keeps percent step num db h = on_event _ _ (on_job _ (λ j. refl) db h)

  run_stage-keeps :
      (trace_id : ℕ) (s : Stage) (db : JobDb)
      → P db
      → Both P P (run_stage env now job_id trace_id s db)
  unfolding run_stage
  run_stage-keeps trace_id s db h = after (is_cancelled job_id arrived_db) (env.fault s.num)
    where
      arrived_db : JobDb
      arrived_db = arrive env now job_id s.num (update_progress job_id s.percent s.step s.num db)

      arrived : P arrived_db
      arrived = arrive-keeps s.num _ (update_progress-keeps s.percent s.step s.num db h)

      after :
          (b : Bool) (o : Option Fault)
          → Both P P (
              if b then stopped cancelled_stop true arrived_db else elim o [
                | none ↦ going (record_trace (s.recorded trace_id) arrived_db)
                | some e ↦
                    stopped (fault_stop e) true (record_trace (s.recorded trace_id) arrived_db)
              ])
      after true o = arrived
      after false none = on_trace _ _ arrived
      after false (some e) = on_trace _ _ arrived

  pub run_stages-keeps :
      (trace_id : ℕ) (ss : List Stage) (db : JobDb)
      → P db
      → Both P P (run_stages env now job_id trace_id ss db)
  unfolding run_stages
  run_stages-keeps trace_id [] db h = h
  run_stages-keeps trace_id (s ∷ rest) db h =
      after (run_stage env now job_id trace_id s db) (run_stage-keeps trace_id s db h)
        (λ db'. λ there. run_stages-keeps trace_id rest db' there)
    where
      after :
          (p : Progress)
          → Both P P p
          → ((db' : JobDb) → P db' → Both P P (run_stages env now job_id trace_id rest db'))
          → Both P P (elim p [
            | going db' ↦ run_stages env now job_id trace_id rest db'
            | stopped stop traced db' ↦ stopped stop traced db'
          ])
      after (going db') p k = k db' p
      after (stopped stop traced db') p k = p

  start-keeps :
      (trace_id : ℕ) (job : AiJob) (db : JobDb)
      → P db
      → Both P P (start env now job_id trace_id job db)
  unfolding start
  start-keeps trace_id job db h = after (is_cancelled job_id arrived_db) env.trace_starts
    where
      arrived_db : JobDb
      arrived_db = arrive env now job_id 0 db

      begun : JobDb
      begun =
          add_job_event job_id (started_event now)
            (set_job job_id (λ j. record j { status = running; started_at = some now }) arrived_db)

      arrived : P arrived_db
      arrived = arrive-keeps 0 db h

      ran : P begun
      ran = on_event _ _ (on_job _ (λ j. refl) arrived_db arrived)

      after :
          (b c : Bool)
          → Both P P (
              if b
              then stopped cancelled_stop false arrived_db
              else if c
              then going (
                  set_job job_id
                    (λ j. record j { execution_trace_id = some trace_id })
                    (record_trace (trace_started trace_id job.organization_id) begun))
              else stopped
                  (fault_stop (code_error "'NoneType' object has no attribute 'id'"))
                  false
                  begun)
      after true c = arrived
      after false true = on_job _ (λ j. refl) _ (on_trace _ begun ran)
      after false false = ran

  -- The body, with what its last part, `finish`, makes of the predicate.
  pub run_body-keeps :
      (Q : JobDb → Type 0) (trace_id : ℕ) (job : AiJob) (db : JobDb)
      → ((db' : JobDb) → P db' → Both Q P (finish env now job_id trace_id db'))
      → P db
      → Both Q P (run_body env now job_id trace_id job db)
  unfolding run_body
  run_body-keeps Q trace_id job db last h =
      begun (start env now job_id trace_id job db) (start-keeps trace_id job db h)
    where
      staged :
          (p : Progress)
          → Both P P p
          → Both Q P (elim p [
            | stopped stop traced db'' ↦ stopped stop traced db''
            | going db'' ↦ finish env now job_id trace_id db''
          ])
      staged (going db'') p = last db'' p
      staged (stopped stop traced db'') p = p

      begun :
          (p : Progress)
          → Both P P p
          → Both Q P (elim p [
            | stopped stop traced db' ↦ stopped stop traced db'
            | going db' ↦ elim (run_stages env now job_id trace_id stages db') [
              | stopped stop traced db'' ↦ stopped stop traced db''
              | going db'' ↦ finish env now job_id trace_id db''
            ]
          ])
      begun (going db') p =
          staged (run_stages env now job_id trace_id stages db')
            (run_stages-keeps trace_id stages db' p)
      begun (stopped stop traced db') p = p

  -- `finish`, with what saving the result makes of the predicate.
  pub finish-keeps :
      (Q : JobDb → Type 0) (trace_id : ℕ) (db : JobDb)
      → ((db' : JobDb)
          → P db'
          → Q (save_result now job_id completed success_output none none 100 150 db'))
      → P db
      → Both Q P (finish env now job_id trace_id db)
  unfolding finish
  finish-keeps Q trace_id db saved h = after (env.fault 6)
    where
      sent : JobDb
      sent = record_trace (completion_emitted job_id trace_id) (
          record_trace (trace_completed trace_id)
            (arrive env now job_id 6 (update_progress job_id 100 "Completed" 6 db)))

      arrived : P sent
      arrived =
          on_trace _ _
            (on_trace _ _ (arrive-keeps 6 _ (update_progress-keeps 100 "Completed" 6 db h)))

      after :
          (o : Option Fault)
          → Both Q P (elim o [
            | none ↦ going (save_result now job_id completed success_output none none 100 150 sent)
            | some e ↦ stopped (fault_stop e) true sent
          ])
      after none = saved sent arrived
      after (some e) = arrived

  module _
      (on_result : (rs : List JobResult) (db : JobDb) → P db → P (record db { results = rs })) where
    save_result-keeps :
        (s : JobStatus) (out : Output) (message : Option String)
        (category : Option JobFailureCategory) (ms tokens : ℕ) (db : JobDb)
        → P db
        → P (save_result now job_id s out message category ms tokens db)
    unfolding save_result
    save_result-keeps s out message category ms tokens db h =
        on_event _ _ (on_job _ (λ j. refl) _ (on_result _ db h))

    close_trace-keeps :
        (e : TraceEvent) (traced : Bool) (db : JobDb) → P db → P (close_trace e traced db)
    close_trace-keeps e true db h = on_trace e db h
    close_trace-keeps e false db h = h

    conclude-keeps :
        (trace_id : ℕ) (p : Progress) → Both P P p → P (conclude now job_id env trace_id p).1
    unfolding conclude handle_cancellation handle_failure
    conclude-keeps trace_id (going db) h = h
    conclude-keeps trace_id (stopped cancelled_stop traced db) h =
        elim (Option-cases env.closing_fault) [
          | inr (e, f) ↦ rw (f, conclude) h
          | inl f ↦
              rw (f, conclude)
                (mark_cancelled-keeps _
                  (close_trace-keeps _ traced _ (save_result-keeps _ _ _ _ _ _ db h)))
        ]
    conclude-keeps trace_id (stopped (fault_stop (code_error error)) traced db) h =
        elim (Option-cases env.closing_fault) [
          | inr (e, f) ↦ rw (f, conclude) h
          | inl f ↦
              rw (f, conclude)
                (on_event _ _ (
                  on_job _ (λ j. refl) _
                    (close_trace-keeps _ traced _ (save_result-keeps _ _ _ _ _ _ db h))))
        ]
    conclude-keeps trace_id (stopped (fault_stop (database_error e)) traced db) h = h

    pub execute_job-keeps :
        (trace_id : ℕ) (db : JobDb) → P db → P (execute_job env now job_id trace_id db).1
    execute_job-keeps trace_id db h = elim (Option-cases (get_job job_id db)) [
      | inl e ↦
          subst (λ (r : ExecResult × JobDb). P r.1)
            (sym (execute_job_missing env now job_id trace_id db e)) h
      | inr (job, e) ↦
          subst (λ (r : ExecResult × JobDb). P r.1)
            (sym (execute_job_found env now job_id trace_id db job e))
            (conclude-keeps trace_id _ (
              run_body-keeps P trace_id job db
                (λ db'. finish-keeps P trace_id db' (save_result-keeps completed _ _ _ _ _)) h))
    ]
