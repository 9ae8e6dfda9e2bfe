-- ===== src/Task/WriteBack.antt =====
-- `write_back` of Update, described by what it leaves in the database.
use hire_ai.Prelude.{
  ℕ, ◌≡◌, ◌≢◌, refl, ap, ◌∙◌, true, false, some, List, [], ◌∷◌, ◌++◌, map, find, update_where,
  count_where, All, arith, ◌==◌, Option-cases, is_some, inl, inr, sym,
}
use mathlib.Core.List.{append_assoc, append-nil}
use mathlib.Core.Bool.{false≢true}
use hire_ai.Task.{Task, TaskActivity, TaskActivityType, DomainEvent, Metadata, RequestContext}
use hire_ai.Task.Store.{
  Db, ok, err, concurrent_update, FieldUpdate, set_status, apply_updates, metadata_is_valid,
  log_activity, log_all, publish, locked_row, bump,
}
use hire_ai.Task.Update.{write_back, refresh}

-- The row of `task_activities` for an entry of `activities_to_log`.
abbrev pub activity : RequestContext → ℕ → TaskActivityType × Metadata → TaskActivity
activity ctx task_id l = record {
  task_id = task_id;
  actor_id = ctx.user_id;
  activity_type = l.0;
  event_metadata = l.1;
}

abbrev pub IsLoggable : List (TaskActivityType × Metadata) → Type 0
IsLoggable logs = All (λ l. metadata_is_valid l.0 l.1 ≡ true) logs

-- The database after a successful `write_back`.
abbrev pub written :
    RequestContext
    → ℕ
    → Task
    → List FieldUpdate
    → List (TaskActivityType × Metadata)
    → List DomainEvent
    → Db
    → Db
written ctx task_id task updates logs events db = record db {
  tasks = update_where (locked_row ctx task_id task.version) (bump updates task.version) db.tasks;
  activities = db.activities ++ map (activity ctx task_id) logs;
  published = db.published ++ events;
}

log_activity_ok :
    (ctx : RequestContext) (task_id : ℕ) (l : TaskActivityType × Metadata) (db : Db)
    → metadata_is_valid l.0 l.1 ≡ true
    → log_activity ctx task_id l.0 l.1 db
      ≡ some (record db { activities = db.activities ++ activity ctx task_id l ∷ [] })
log_activity_ok ctx task_id l db h = unfold log_activity in rw h

log_all_ok :
    (ctx : RequestContext) (task_id : ℕ) (logs : List (TaskActivityType × Metadata)) (db : Db)
    → IsLoggable logs
    → log_all ctx task_id logs db
      ≡ some (record db { activities = db.activities ++ map (activity ctx task_id) logs })
unfolding log_all
log_all_ok ctx task_id [] db h = rw append-nil
log_all_ok ctx task_id ((k, m) ∷ logs) db h =
    let db' : Db = record db { activities = db.activities ++ activity ctx task_id (k, m) ∷ [] } in
    rw (log_activity_ok ctx task_id (k, m) db h.0, log_all)
      (log_all_ok ctx task_id logs db' h.1
        ∙ ap (λ a. some (record db { activities = a })) (rw append_assoc))

-- An update of columns other than the key columns.
pub apply_updates_keys :
    (us : List FieldUpdate) (t : Task)
    → ((apply_updates us t).id ≡ t.id)
      × ((apply_updates us t).organization_id ≡ t.organization_id)
      × ((apply_updates us t).deleted_at ≡ t.deleted_at)
unfolding apply_updates
apply_updates_keys [] t = (refl, refl, refl)
apply_updates_keys (set_status s ∷ us) t = apply_updates_keys us _
apply_updates_keys (u ∷ us) t = apply_updates_keys us _

finds_updated :
    (ctx : RequestContext) (task_id v : ℕ) (us : List FieldUpdate) (rows : List Task)
    → count_where (locked_row ctx task_id v) rows ≢ 0
    → is_some
        (find (λ t. t.id == task_id) (update_where (locked_row ctx task_id v) (bump us v) rows))
      ≡ true
finds_updated ctx task_id v us [] h = absurd (h refl)
finds_updated ctx task_id v us (r ∷ rows) h =
    ground (arith, apply_updates_keys us r, finds_updated ctx task_id v us rows)

find_updated :
    (ctx : RequestContext) (task_id v : ℕ) (us : List FieldUpdate) (rows : List Task)
    → count_where (locked_row ctx task_id v) rows ≢ 0
    → (t : Task) × (find
          (λ t. t.id == task_id)
          (update_where (locked_row ctx task_id v) (bump us v) rows)
        ≡ some t)
find_updated ctx task_id v us rows h =
    elim (Option-cases
      (find (λ t. t.id == task_id) (update_where (locked_row ctx task_id v) (bump us v) rows))) [
        | inl e ↦ absurd (false≢true (sym (ap is_some e) ∙ finds_updated ctx task_id v us rows h))
        | inr p ↦ p
      ]

not_zero : (n : ℕ) → n ≢ 0 → (n == 0) ≡ false
not_zero n h = ground arith

refresh_ok :
    (task_id : ℕ) (db : Db) (t : Task)
    → find (λ t. t.id == task_id) db.tasks ≡ some t
    → refresh task_id db ≡ ok t
unfolding refresh
refresh_ok task_id db t h = rw (h, refresh)

module _ (synchronized : Task → Task → Task) (ctx : RequestContext) (task_id : ℕ) (task : Task)
    (updates : List FieldUpdate) (logs : List (TaskActivityType × Metadata))
    (events : Task → List DomainEvent) (db : Db) where
  pub write_back_stale :
      count_where (locked_row ctx task_id task.version) db.tasks ≡ 0
      → write_back synchronized ctx task_id task updates logs events db
        ≡ (err concurrent_update, db)
  unfolding write_back
  write_back_stale h = rw h

  pub write_back_ok :
      IsLoggable logs
      → count_where (locked_row ctx task_id task.version) db.tasks ≢ 0
      → (t : Task) × (evs : List DomainEvent) × (write_back synchronized ctx task_id task updates
            logs events db
          ≡ (ok t, written ctx task_id task updates logs evs db))
  write_back_ok loggable h =
      let (t, found) = find_updated ctx task_id task.version updates db.tasks h in
      let rows : Db = record db {
        tasks =
            update_where (locked_row ctx task_id task.version) (bump updates task.version) db.tasks;
      } in
      let logged : Db = record rows {
        activities = db.activities ++ map (activity ctx task_id) logs;
      } in
      (
        t,
        events (synchronized task (bump updates task.version task)),
        unfold write_back publish in
            rw (not_zero _ h) (
              rw (log_all_ok ctx task_id logs rows loggable, write_back)
                (rw (refresh_ok task_id logged t found, write_back))),
      )
