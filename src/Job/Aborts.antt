-- ===== src/Job/Aborts.antt =====
-- Where the errors of the database in an execution come from.
use hire_ai.Prelude.{
  ℕ, String, ◌≡◌, refl, Bool, true, false, Option, none, some, List, [], ◌∷◌, if◌then◌else◌,
}
use hire_ai.Job.{AiJob, JobDb}
use hire_ai.Job.Execute.{
  Fault, code_error, database_error, Environment, cancelled_stop, fault_stop, Progress, going,
  stopped, record_trace, is_cancelled, update_progress, Stage, stages, arrive, run_stage,
  run_stages, finish, start, run_body,
}

-- An error of the database is one that the environment raises.
abbrev pub IsRaised : Environment → Progress → Type 0
IsRaised env (stopped (fault_stop (database_error e)) traced db) =
    (n : ℕ) × (env.fault n ≡ some (database_error e))
IsRaised env p = Unit

module _ (env : Environment) (now job_id trace_id : ℕ) where
  stopped-IsRaised :
      (n : ℕ) (f : Fault) (traced : Bool) (db : JobDb)
      → env.fault n ≡ some f
      → IsRaised env (stopped (fault_stop f) traced db)
  stopped-IsRaised n (code_error e) traced db h = tt
  stopped-IsRaised n (database_error e) traced db h = (n, h)

  checked-IsRaised :
      (n : ℕ) (o : Option Fault) (next failed : JobDb)
      → env.fault n ≡ o
      → IsRaised env (elim o [ none ↦ going next | some f ↦ stopped (fault_stop f) true failed ])
  checked-IsRaised n none next failed h = tt
  checked-IsRaised n (some f) next failed h = stopped-IsRaised n f true failed h

  run_stage-IsRaised :
      (s : Stage) (db : JobDb) → IsRaised env (run_stage env now job_id trace_id s db)
  unfolding run_stage
  run_stage-IsRaised s db = after (is_cancelled job_id arrived)
    where
      arrived : JobDb
      arrived = arrive env now job_id s.num (update_progress job_id s.percent s.step s.num db)

      after :
          (b : Bool)
          → IsRaised env (
              if b then stopped cancelled_stop true arrived else elim (env.fault s.num) [
                | none ↦ going (record_trace (s.recorded trace_id) arrived)
                | some e ↦ stopped (fault_stop e) true (record_trace (s.recorded trace_id) arrived)
              ])
      after true = tt
      after false = checked-IsRaised s.num (env.fault s.num) _ _ refl

  run_stages-IsRaised :
      (ss : List Stage) (db : JobDb) → IsRaised env (run_stages env now job_id trace_id ss db)
  unfolding run_stages
  run_stages-IsRaised [] db = tt
  run_stages-IsRaised (s ∷ rest) db =
      after (run_stage env now job_id trace_id s db) (run_stage-IsRaised s db)
        (λ db'. run_stages-IsRaised rest db')
    where
      after :
          (p : Progress)
          → IsRaised env p
          → ((db' : JobDb) → IsRaised env (run_stages env now job_id trace_id rest db'))
          → IsRaised env (elim p [
            | going db' ↦ run_stages env now job_id trace_id rest db'
            | stopped stop traced db' ↦ stopped stop traced db'
          ])
      after (going db') p k = k db'
      after (stopped stop traced db') p k = p

  finish-IsRaised : (db : JobDb) → IsRaised env (finish env now job_id trace_id db)
  unfolding finish
  finish-IsRaised db = checked-IsRaised 6 (env.fault 6) _ _ refl

  start-IsRaised : (job : AiJob) (db : JobDb) → IsRaised env (start env now job_id trace_id job db)
  unfolding start
  start-IsRaised job db =
      after _ _ _ _ (is_cancelled job_id (arrive env now job_id 0 db)) env.trace_starts
    where
      after :
          (d₁ d₂ d₃ : JobDb) (e : String) (b c : Bool)
          → IsRaised env (
              if b
              then stopped cancelled_stop false d₁
              else if c
              then going d₂
              else stopped (fault_stop (code_error e)) false d₃)
      after d₁ d₂ d₃ e true c = tt
      after d₁ d₂ d₃ e false true = tt
      after d₁ d₂ d₃ e false false = tt

  pub run_body-IsRaised :
      (job : AiJob) (db : JobDb) → IsRaised env (run_body env now job_id trace_id job db)
  unfolding run_body
  run_body-IsRaised job db = begun (start env now job_id trace_id job db) (start-IsRaised job db)
    where
      staged :
          (p : Progress)
          → IsRaised env p
          → IsRaised env (elim p [
            | stopped stop traced db'' ↦ stopped stop traced db''
            | going db'' ↦ finish env now job_id trace_id db''
          ])
      staged (going db'') p = finish-IsRaised db''
      staged (stopped stop traced db'') p = p

      begun :
          (p : Progress)
          → IsRaised env p
          → IsRaised env (elim p [
            | stopped stop traced db' ↦ stopped stop traced db'
            | going db' ↦ elim (run_stages env now job_id trace_id stages db') [
              | stopped stop traced db'' ↦ stopped stop traced db''
              | going db'' ↦ finish env now job_id trace_id db''
            ]
          ])
      begun (going db') p =
          staged (run_stages env now job_id trace_id stages db') (run_stages-IsRaised stages db')
      begun (stopped stop traced db') p = p
