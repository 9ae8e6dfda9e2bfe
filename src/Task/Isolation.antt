-- ===== src/Task/Isolation.antt =====
-- Errors and tenants: what a call of the task service leaves alone.
use mathlib.Core.Path.{subst}
use hire_ai.Prelude.{
  Bool-cases, ℕ, ◌≡◌, refl, ap, inl, inr, true, false, not, List, [], ◌∷◌, ◌++◌, filter,
  filter-update_where, arith, ◌==◌, is_some,
}
use hire_ai.Task.{Task, RequestContext}
use hire_ai.Task.Store.{
  Db, Result, err, TaskError, FieldUpdate, locked_row, bump, visible_task, soft_delete, publish,
  get_by_id,
}
use hire_ai.Task.WriteBack.{apply_updates_keys}
use hire_ai.Task.Command.{
  Command, run, IsClientError, refused, kept, changed, Outcome, in_place, inserted, deleted,
}
use hire_ai.Task.Runs.{run-Outcome}

-- The rows of the other organizations.
abbrev pub foreign_rows : RequestContext → List Task → List Task
foreign_rows ctx = filter (λ t. not (t.organization_id == ctx.tenant_id))

module _ {A : Type 0} {ctx : RequestContext} {task_id : ℕ} {seen db : Db} (r : Result A × Db) where
  errors_kept :
      Outcome ctx task_id seen db r → (e : TaskError) → r.0 ≡ err e → IsClientError e × (r.1 ≡ db)
  errors_kept (in_place (refused e' c h)) e p =
      let same : e' ≡ e = cc (ap (λ (q : Result A × Db). q.0) h) in
      (subst IsClientError same c, ap (λ (q : Result A × Db). q.1) h)
  errors_kept (in_place (kept a h)) e p = cc (ap (λ (q : Result A × Db). q.0) h)
  errors_kept (in_place (changed a task us logs evs found current sound loggable h)) e p =
      cc (ap (λ (q : Result A × Db). q.0) h)
  errors_kept (inserted a t log evs own fresh loggable h) e p =
      cc (ap (λ (q : Result A × Db). q.0) h)
  errors_kept (deleted a now evs h) e p = cc (ap (λ (q : Result A × Db). q.0) h)

foreign_append :
    (ctx : RequestContext) (t : Task) (rows : List Task)
    → t.organization_id ≡ ctx.tenant_id
    → foreign_rows ctx (rows ++ t ∷ []) ≡ foreign_rows ctx rows
foreign_append ctx t [] h = ground arith
foreign_append ctx t (r ∷ rows) h = ground (arith, foreign_append ctx t rows h)

foreign_updated :
    (ctx : RequestContext) (task_id v : ℕ) (us : List FieldUpdate) (x : Task)
    → locked_row ctx task_id v x ≡ true
    → (not (x.organization_id == ctx.tenant_id) ≡ false)
      × (not ((bump us v x).organization_id == ctx.tenant_id) ≡ false)
foreign_updated ctx task_id v us x h = ground (arith, apply_updates_keys us x)

foreign_deleted :
    (ctx : RequestContext) (task_id now : ℕ) (x : Task)
    → visible_task ctx task_id x ≡ true
    → (not (x.organization_id == ctx.tenant_id) ≡ false)
      × (not (x.organization_id == ctx.tenant_id) ≡ false)
foreign_deleted ctx task_id now x h = ground arith

foreign_soft_delete :
    (ctx : RequestContext) (now task_id : ℕ) (db : Db)
    → (foreign_rows ctx (soft_delete ctx now task_id db).1.tasks ≡ foreign_rows ctx db.tasks)
      × ((soft_delete ctx now task_id db).1.leads ≡ db.leads)
unfolding soft_delete
foreign_soft_delete ctx now task_id db = elim (Bool-cases (is_some (get_by_id ctx task_id db))) [
  | inl found ↦
      rw found (filter-update_where _ _ _ db.tasks (foreign_deleted ctx task_id now), refl)
  | inr missing ↦ rw missing (refl, refl)
]

module _ {A : Type 0} {ctx : RequestContext} {task_id : ℕ} {seen db : Db} (r : Result A × Db) where
  foreign_kept :
      Outcome ctx task_id seen db r
      → (foreign_rows ctx r.1.tasks ≡ foreign_rows ctx db.tasks) × (r.1.leads ≡ db.leads)
  foreign_kept (in_place (refused e c h)) = rw h (refl, refl)
  foreign_kept (in_place (kept a h)) = rw h (refl, refl)
  foreign_kept (in_place (changed a task us logs evs found current sound loggable h)) =
      rw h (filter-update_where _ _ _ db.tasks (foreign_updated ctx task_id task.version us), refl)
  foreign_kept (inserted a t log evs own fresh loggable h) =
      rw h (foreign_append ctx t db.tasks own, refl)
  foreign_kept (deleted a now evs h) =
      unfold publish in rw h (foreign_soft_delete ctx now task_id db)

-- Every method leaves the task rows of the other organizations, and all leads, exactly as they
-- were, whatever was committed between its read and its writes.
pub run_isolated :
    (synchronized : Task → Task → Task) (ctx : RequestContext) (task_id : ℕ) (c : Command)
    (seen db : Db)
    → (foreign_rows ctx (run synchronized ctx task_id c seen db).1.tasks
        ≡ foreign_rows ctx db.tasks)
      × ((run synchronized ctx task_id c seen db).1.leads ≡ db.leads)
run_isolated synchronized ctx task_id c seen db =
    foreign_kept _ (run-Outcome synchronized ctx task_id seen db c)
