-- ===== src/Task/Outcomes.antt =====
-- Every method of the service has one of the outcomes of Command.
use native.Mathlib.Decide.{ℕ_discrete}
use hire_ai.Prelude.{
  ℕ, ◌≡◌, refl, false, none, some, List, [], ◌∷◌, ◌++◌, count_where, All-append, arith, ◌==◌,
  Option-cases, Bool-cases, inl, inr,
}
use hire_ai.Task.{
  Task, TaskStatus, TaskActivityType, Metadata, DomainEvent, RequestContext, TaskCreateRequest,
  TaskUpdateRequest, opened, same_status,
}
use hire_ai.Task.Store.{
  Db, Result, ok, err, TaskError, lead_not_found, task_not_found, concurrent_update, validation,
  value_error, value_error, refresh_failed, cancel_completed, LeadRow, set_status, FieldUpdate,
  apply_updates, get_by_id, get_lead_by_id, create, publish, log_activity, locked_row,
  metadata_is_valid,
}
use hire_ai.Task.Update.{Changes, check_dates, status_part, write_back, plan_update}
use hire_ai.Task.Service.{
  new_task, created_log, created_event, create_task, update_task, write_update, write_plan,
  with_task, complete_task, reopen_task, cancel_task, soft_delete_task, stamp,
}
use hire_ai.Task.WriteBack.{IsLoggable, activity, write_back_stale, write_back_ok}
use hire_ai.Task.Sound.{IsSound, IsSound-append, plan_update-IsSound}
use hire_ai.Task.Command.{
  IsClientError, InPlace, in_place, Outcome, refused, kept, inserted, changed, deleted,
}

module _ (ctx : RequestContext) (task_id : ℕ) (seen db : Db) where
  with_task_missing :
      {A : Type 0} (method : Task → Result A × Db)
      → get_by_id ctx task_id seen ≡ none
      → with_task ctx task_id seen db method ≡ (err task_not_found, db)
  unfolding with_task
  with_task_missing method h = rw (h, with_task)

  pub with_task_found :
      {A : Type 0} (method : Task → Result A × Db) (task : Task)
      → get_by_id ctx task_id seen ≡ some task
      → with_task ctx task_id seen db method ≡ method task
  unfolding with_task
  with_task_found method task h = rw (h, with_task)

  with_task_outcome :
      {A : Type 0} (P : Result A × Db → Type 0) (method : Task → Result A × Db)
      → P (err task_not_found, db)
      → ((task : Task) → get_by_id ctx task_id seen ≡ some task → P (method task))
      → P (with_task ctx task_id seen db method)
  with_task_outcome P method missed h = elim (Option-cases (get_by_id ctx task_id seen)) [
    | inl missing ↦ rw (with_task_missing method missing) missed
    | inr (task, found) ↦ rw (with_task_found method task found) (h task found)
  ]

  create_missing :
      (now new_id : ℕ) (request : TaskCreateRequest)
      → get_lead_by_id ctx request.lead_id seen ≡ none
      → create_task ctx now new_id request seen db ≡ (err lead_not_found, db)
  unfolding create_task
  create_missing now new_id request h = rw (h, create_task)

  create_found :
      (now new_id : ℕ) (request : TaskCreateRequest) (lead : LeadRow)
      → get_lead_by_id ctx request.lead_id seen ≡ some lead
      → create_task ctx now new_id request seen db ≡ (
        ok (new_task ctx now new_id request),
        record db {
          tasks = db.tasks ++ new_task ctx now new_id request ∷ [];
          activities = db.activities ++ activity ctx new_id (created_log ctx request) ∷ [];
          published = db.published ++ created_event ctx new_id request ∷ [];
        },
      )
  unfolding create_task log_activity metadata_is_valid create publish
  create_found now new_id request lead h = rw (h, create_task)

  pub create-Outcome :
      (now new_id : ℕ) (request : TaskCreateRequest)
      → Outcome ctx task_id seen db (create_task ctx now new_id request seen db)
  unfolding metadata_is_valid
  create-Outcome now new_id request =
      elim (Option-cases (get_lead_by_id ctx request.lead_id seen)) [
        | inl missing ↦
            in_place (refused lead_not_found tt (create_missing now new_id request missing))
        | inr (lead, found) ↦
            inserted _ _ (created_log ctx request) _ refl refl (refl, tt)
              (create_found now new_id request lead found)
      ]

  pub delete-Outcome :
      (now : ℕ) → Outcome ctx task_id seen db (soft_delete_task ctx now task_id seen db)
  unfolding soft_delete_task
  delete-Outcome now =
      with_task_outcome (Outcome ctx task_id seen db) _ (in_place (refused task_not_found tt refl))
        λ task found. deleted _ now _ refl

module _ (synchronized : Task → Task → Task) (ctx : RequestContext) (task_id : ℕ)
    (seen db : Db) where
  write_back_outcome :
      (task : Task) (us : List FieldUpdate) (logs : List (TaskActivityType × Metadata))
      (events : Task → List DomainEvent)
      → get_by_id ctx task_id seen ≡ some task
      → IsSound task us
      → IsLoggable logs
      → InPlace ctx task_id seen db (write_back synchronized ctx task_id task us logs events db)
  write_back_outcome task us logs events found sound loggable =
      elim (ℕ_discrete (count_where (locked_row ctx task_id task.version) db.tasks) 0) [
        | yes stale ↦
            refused concurrent_update tt
              (write_back_stale synchronized ctx task_id task us logs events db stale)
        | no current ↦
            let (t, evs, e) =
              write_back_ok synchronized ctx task_id task us logs events db loggable current in
            changed t task us logs evs found current sound loggable e
      ]

  pub complete_outcome :
      (now version : ℕ)
      → InPlace ctx task_id seen db (complete_task synchronized ctx now task_id version seen db)
  unfolding complete_task apply_updates metadata_is_valid
  complete_outcome now version =
      with_task_outcome ctx task_id seen db (InPlace ctx task_id seen db) _
        (refused task_not_found tt refl)
        λ task found. elim (Bool-cases (same_status task.status TaskStatus.completed)) [
          | inl done ↦ rw done (kept task refl)
          | inr todo ↦ elim (Bool-cases (task.version == version)) [
            | inl same ↦
                rw (todo, same)
                  (write_back_outcome task _ _ _ found (λ row agrees consistent. refl) (refl, tt))
            | inr other ↦ rw (todo, other) (refused concurrent_update tt refl)
          ]
        ]

  pub reopen_outcome :
      (now version : ℕ)
      → InPlace ctx task_id seen db (reopen_task synchronized ctx now task_id version seen db)
  unfolding reopen_task apply_updates metadata_is_valid
  reopen_outcome now version =
      with_task_outcome ctx task_id seen db (InPlace ctx task_id seen db) _
        (refused task_not_found tt refl)
        λ task found. elim (Bool-cases (same_status task.status opened)) [
          | inl done ↦ rw done (kept task refl)
          | inr todo ↦ elim (Bool-cases (task.version == version)) [
            | inl same ↦
                rw (todo, same)
                  (write_back_outcome task _ _ _ found (λ row agrees consistent. refl) (refl, tt))
            | inr other ↦ rw (todo, other) (refused concurrent_update tt refl)
          ]
        ]

  cancel-IsSound :
      (now : ℕ) (task : Task)
      → same_status task.status TaskStatus.completed ≡ false
      → IsSound task (set_status TaskStatus.cancelled ∷ stamp ctx now)
  unfolding apply_updates
  cancel-IsSound now task h row agrees consistent = ground arith

  pub cancel_outcome :
      (now version : ℕ)
      → InPlace ctx task_id seen db (cancel_task synchronized ctx now task_id version seen db)
  unfolding cancel_task apply_updates metadata_is_valid
  cancel_outcome now version =
      with_task_outcome ctx task_id seen db (InPlace ctx task_id seen db) _
        (refused task_not_found tt refl)
        λ task found. elim (Bool-cases (same_status task.status TaskStatus.cancelled)) [
          | inl done ↦ rw done (kept task refl)
          | inr todo ↦ elim (Bool-cases (same_status task.status TaskStatus.completed)) [
            | inl closed ↦ rw (todo, closed) (refused (validation cancel_completed) tt refl)
            | inr running ↦ elim (Bool-cases (task.version == version)) [
              | inl same ↦
                  rw (todo, running, same)
                    (write_back_outcome task _ _ _ found (cancel-IsSound now task running)
                      (refl, tt))
              | inr other ↦ rw (todo, running, other) (refused concurrent_update tt refl)
            ]
          ]
        ]

  plan_update-IsClientError :
      (now : ℕ) (task : Task) (request : TaskUpdateRequest) (e : TaskError)
      → plan_update ctx now task request ≡ err e
      → IsClientError e
  unfolding plan_update check_dates status_part
  plan_update-IsClientError now task request value_error h = ground arith
  plan_update-IsClientError now task request refresh_failed h = ground arith
  plan_update-IsClientError now task request _ h = tt

  write_update_outcome :
      (now : ℕ) (task : Task) (us : List FieldUpdate) (logs : List (TaskActivityType × Metadata))
      → get_by_id ctx task_id seen ≡ some task
      → IsSound task us
      → IsLoggable logs
      → InPlace ctx task_id seen db (write_update synchronized ctx now task_id task us logs db)
  unfolding write_update metadata_is_valid
  write_update_outcome now task [] logs found sound loggable = kept task refl
  write_update_outcome now task (u ∷ us) logs found sound loggable =
      write_back_outcome task ((u ∷ us) ++ stamp ctx now) _ _ found
        (IsSound-append task (u ∷ us) (stamp ctx now) sound (refl, (refl, tt)))
        (All-append _ logs _ loggable (refl, tt))

  pub update_outcome :
      (now later : ℕ) (request : TaskUpdateRequest)
      → InPlace ctx task_id seen db (update_task synchronized ctx now later task_id request seen db)
  unfolding update_task write_plan
  update_outcome now later request =
      with_task_outcome ctx task_id seen db (InPlace ctx task_id seen db) _
        (refused task_not_found tt refl)
        λ task found. elim (Bool-cases (task.version == request.version)) [
          | inl same ↦ rw same (planned task found (plan_update ctx now task request) refl)
          | inr other ↦ rw other (refused concurrent_update tt refl)
        ]
    where
      planned :
          (task : Task)
          → get_by_id ctx task_id seen ≡ some task
          → (plan : Result Changes) → plan_update ctx now task request ≡ plan
          → InPlace ctx task_id seen db (write_plan synchronized ctx later task_id task plan db)
      planned task found (err e) h = refused e (plan_update-IsClientError now task request e h) refl
      planned task found (ok ch) h =
          let (sound, loggable) = plan_update-IsSound ctx now task request ch h in
          write_update_outcome later task ch.0 ch.1 found sound loggable
