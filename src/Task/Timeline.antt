-- ===== src/Task/Timeline.antt =====
-- What every method leaves in the timeline and in the published events.
use hire_ai.Prelude.{
  ℕ, ◌≡◌, refl, sym, inl, inr, true, List, [], ◌∷◌, ◌++◌, map, All, is_some, Bool-cases,
}
use mathlib.Core.List.{append-nil}
use hire_ai.Task.{Task, TaskActivity, TaskActivityType, Metadata, DomainEvent, RequestContext}
use hire_ai.Task.Store.{Db, Result, soft_delete, publish, get_by_id, metadata_is_valid}
use hire_ai.Task.WriteBack.{IsLoggable, activity}
use hire_ai.Task.Command.{
  Command, run, refused, kept, changed, Outcome, in_place, inserted, deleted,
}
use hire_ai.Task.Runs.{run-Outcome}

-- The entry is by the caller, and has the metadata that its kind needs.
abbrev pub IsAuditable : RequestContext → TaskActivity → Type 0
IsAuditable ctx a =
    (a.actor_id ≡ ctx.user_id) × (metadata_is_valid a.activity_type a.event_metadata ≡ true)

-- The database has only gained entries, each of them auditable, and events.
abbrev pub Extends : RequestContext → Db → Db → Type 0
Extends ctx db db' =
    (logs : List TaskActivity) × (evs : List DomainEvent) × All (IsAuditable ctx) logs
    × (db'.activities ≡ db.activities ++ logs)
    × (db'.published ≡ db.published ++ evs)

Extends-refl : (ctx : RequestContext) (db : Db) → Extends ctx db db
Extends-refl ctx db = ([], [], tt, sym (append-nil _), sym (append-nil _))

logged :
    (ctx : RequestContext) (task_id : ℕ) (logs : List (TaskActivityType × Metadata))
    → IsLoggable logs
    → All (IsAuditable ctx) (map (activity ctx task_id) logs)
logged ctx task_id [] h = tt
logged ctx task_id (l ∷ logs) h = ((refl, h.0), logged ctx task_id logs h.1)

soft_delete-Extends :
    (ctx : RequestContext) (now task_id : ℕ) (evs : List DomainEvent) (db : Db)
    → Extends ctx db (publish evs (soft_delete ctx now task_id db).1)
unfolding soft_delete publish
soft_delete-Extends ctx now task_id evs db =
    elim (Bool-cases (is_some (get_by_id ctx task_id db))) [
      | inl found ↦ ([], evs, tt, rw found (sym (append-nil _)), rw found)
      | inr missing ↦ ([], evs, tt, rw missing (sym (append-nil _)), rw missing)
    ]

module _ {A : Type 0} {ctx : RequestContext} {task_id : ℕ} {seen db : Db} (r : Result A × Db) where
  extended : Outcome ctx task_id seen db r → Extends ctx db r.1
  extended (in_place (refused e c h)) = rw h (Extends-refl ctx db)
  extended (in_place (kept a h)) = rw h (Extends-refl ctx db)
  extended (in_place (changed a task us logs evs found current sound loggable h)) =
      rw h (map (activity ctx task_id) logs, evs, logged ctx task_id logs loggable, refl, refl)
  extended (inserted a t log evs own fresh loggable h) =
      rw h (activity ctx t.id log ∷ [], evs, logged ctx t.id (log ∷ []) loggable, refl, refl)
  extended (deleted a now evs h) = rw h (soft_delete-Extends ctx now task_id evs db)

-- The timeline and the published events are append-only under every method, and each entry that a
-- method appends names the caller and has the metadata that its kind requires.
pub run_timeline :
    (synchronized : Task → Task → Task) (ctx : RequestContext) (task_id : ℕ) (c : Command)
    (seen db : Db)
    → Extends ctx db (run synchronized ctx task_id c seen db).1
run_timeline synchronized ctx task_id c seen db =
    extended _ (run-Outcome synchronized ctx task_id seen db c)
