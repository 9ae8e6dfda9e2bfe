-- ===== src/Task/Tests.antt =====
-- The laws of the task component at a small database: two organizations, and one lead of each.
use mathlib.Core.Path.{subst}
use mathlib.Core.Option.{some-injective}
use hire_ai.Prelude.{
  ℕ, ◌≡◌, ◌≢◌, refl, ap, ◌⊎◌, true, none, some, [], ◌∷◌, All, arith, length, sym, ◌∙◌,
}
use hire_ai.Task.{
  Task, TaskStatus, opened, in_progress, low, call, RequestContext, TaskUpdateRequest,
}
use hire_ai.Task.Store.{
  Db, ok, err, task_not_found, locked_row, get_by_id, publish, apply_updates, log_all, log_activity,
  metadata_is_valid,
}
use hire_ai.Task.Update.{
  write_back, refresh, plan_update, check_dates, status_part, assignee_part, simple_part,
}
use hire_ai.Task.Service.{update_task, write_update, write_plan, with_task, complete_task}
use hire_ai.Task.Sound.{IsConsistent, AgreesWith}
use hire_ai.Task.Command.{complete_cmd, update_cmd, cancel_cmd, run}
use hire_ai.Task.Isolation.{foreign_rows, run_isolated}
use hire_ai.Task.Locking.{RowsStep, other_request, run_versions, no_lost_update}
use hire_ai.Task.Timeline.{Extends, run_timeline}
use hire_ai.Task.Completion.{IsFresh, run-IsConsistent}
use hire_ai.Task.Lifecycle.{Moves, StatusWritten, update_task-Moves}

abbrev row : ℕ → ℕ → Task
row id organization_id = record {
  id = id;
  organization_id = organization_id;
  lead_id = 1;
  created_by = 5;
  updated_by = 5;
  assigned_to = none;
  title = "call back";
  description = none;
  status = opened;
  priority = low;
  type = call;
  version = 1;
  due_at = none;
  completed_at = none;
  reminder_at = none;
  last_activity_at = 0;
  deleted_at = none;
}

abbrev ctx : RequestContext
ctx = record { tenant_id = 7; user_id = 5; request_id = "r" }

abbrev two_tenants : Db
two_tenants = record { leads = []; tasks = row 1 7 ∷ row 2 8 ∷ []; activities = []; published = [] }

abbrev after_write : Task → Task → Task
after_write before after = after

abbrev start_request : TaskUpdateRequest
start_request = record {
  version = 1;
  title = none;
  description = none;
  status = some in_progress;
  priority = none;
  type = none;
  due_at = none;
  reminder_at = none;
  assigned_to = some 9;
}

-- The row of the other organization is not found.
foreign_not_found :
    (run after_write ctx 2 (complete_cmd 10 1) two_tenants two_tenants).0 ≡ err task_not_found
unfolding complete_task with_task get_by_id
foreign_not_found = refl

run_isolated_example :
    (foreign_rows ctx (run after_write ctx 1 (complete_cmd 10 1) two_tenants two_tenants).1.tasks
      ≡ foreign_rows ctx two_tenants.tasks)
    × ((run after_write ctx 1 (complete_cmd 10 1) two_tenants two_tenants).1.leads
        ≡ two_tenants.leads)
run_isolated_example = run_isolated after_write ctx 1 (complete_cmd 10 1) two_tenants two_tenants

run_versions_example :
    RowsStep two_tenants.tasks
      (run after_write ctx 1 (update_cmd 10 11 start_request) two_tenants two_tenants).1.tasks
run_versions_example =
    run_versions after_write ctx 1 (update_cmd 10 11 start_request) two_tenants two_tenants

run_timeline_example :
    Extends ctx two_tenants
      (run after_write ctx 1 (update_cmd 10 11 start_request) two_tenants two_tenants).1
run_timeline_example =
    run_timeline after_write ctx 1 (update_cmd 10 11 start_request) two_tenants two_tenants

abbrev count_activities : Db → ℕ
count_activities db = length db.activities

abbrev completed_db : Db
completed_db = (run after_write ctx 1 (complete_cmd 10 1) two_tenants two_tenants).1

completes : count_activities completed_db ≡ 1
unfolding complete_task with_task get_by_id write_back log_all log_activity metadata_is_valid
    refresh publish apply_updates
completes = refl

wrote : completed_db ≢ two_tenants
wrote e = let impossible : ◌≡◌ {A = ℕ} 1 0 = sym completes ∙ ap count_activities e in omega arith

no_lost_update_example :
    (run after_write (other_request ctx 6 "s") 1 (cancel_cmd 12 1) two_tenants completed_db).1
    ≡ completed_db
no_lost_update_example =
    no_lost_update after_write ctx 6 "s" 1 (complete_cmd 10 1) (cancel_cmd 12 1) two_tenants
      two_tenants tt tt wrote

fresh : IsFresh ctx 1 two_tenants two_tenants
unfolding get_by_id
fresh task found =
    subst (λ t. All (λ r. locked_row ctx 1 t.version r ≡ true → AgreesWith t r) two_tenants.tasks)
      (some-injective _ _ found) (λ _. (refl, refl), (λ h. cc, tt))

run-IsConsistent_example :
    All IsConsistent (run after_write ctx 1 (complete_cmd 10 1) two_tenants two_tenants).1.tasks
run-IsConsistent_example =
    run-IsConsistent after_write ctx 1 (complete_cmd 10 1) two_tenants two_tenants fresh
      (refl, (refl, tt))

abbrev started : Task
started = record (row 1 7) {
  status = in_progress;
  assigned_to = some 9;
  last_activity_at = 11;
  version = 2;
}

starts : (update_task after_write ctx 10 11 1 start_request two_tenants two_tenants).0 ≡ ok started
unfolding update_task write_plan write_update with_task get_by_id plan_update check_dates
    status_part assignee_part simple_part write_back log_all log_activity metadata_is_valid refresh
    publish apply_updates
starts = refl

found_row : get_by_id ctx 1 two_tenants ≡ some (row 1 7)
unfolding get_by_id
found_row = refl

update_task-Moves_example :
    ((in_progress ≡ opened) ⊎ Moves opened in_progress)
    × StatusWritten ctx 1
        (row 1 7)
        in_progress
        two_tenants
        (update_task after_write ctx 10 11 1 start_request two_tenants two_tenants).1
update_task-Moves_example =
    update_task-Moves after_write ctx 10 11 1 start_request two_tenants two_tenants (row 1 7)
      started in_progress found_row refl starts

abbrev finished : Task
finished = record (row 1 7) {
  status = TaskStatus.completed;
  completed_at = some 10;
  last_activity_at = 10;
  version = 2;
}

completes_row :
    complete_task after_write ctx 10 1 1 two_tenants two_tenants ≡ (ok finished, completed_db)
unfolding complete_task with_task get_by_id write_back log_all log_activity metadata_is_valid
    refresh publish apply_updates
completes_row = refl
