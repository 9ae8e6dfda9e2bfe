-- ===== src/Task/Locking.antt =====
-- Optimistic locking: versions, and two writers that read the same version.
use hire_ai.Prelude.{
  ℕ, String, ◌+◌, ◌≡◌, ◌≢◌, refl, ap, ◌∙◌, ◌⊎◌, inl, inr, Bool, true, false, List, [], ◌∷◌, ◌++◌,
  update_where, count_where, arith, if◌then◌else◌, is_some, Bool-cases,
}
use hire_ai.Task.{Task, RequestContext}
use hire_ai.Task.Store.{
  Db, Result, FieldUpdate, locked_row, bump, visible_task, soft_delete, publish, get_by_id,
}
use hire_ai.Task.WriteBack.{apply_updates_keys}
use hire_ai.Task.Command.{
  Command, run, IsUpdate, InPlace, refused, kept, changed, Outcome, in_place, inserted, deleted,
}
use hire_ai.Task.Runs.{run-Outcome, run-InPlace}

-- What may happen to one row: nothing but a soft deletion, or a change that counts as a version.
abbrev pub RowStep : Task → Task → Type 0
RowStep x y =
    (y.id ≡ x.id)
    × (y.organization_id ≡ x.organization_id)
    × ((y ≡ record x { deleted_at = y.deleted_at }) ⊎ (y.version ≡ x.version + 1))

-- The old rows, each after such a step, and then new rows.
abbrev pub RowsStep : List Task → List Task → Type 0
RowsStep [] ys = Unit
RowsStep (x ∷ xs) [] = ⊥
RowsStep (x ∷ xs) (y ∷ ys) = RowStep x y × RowsStep xs ys

RowsStep-refl : (xs : List Task) → RowsStep xs xs
RowsStep-refl [] = tt
RowsStep-refl (x ∷ xs) = ((refl, refl, inl refl), RowsStep-refl xs)

RowsStep-append : (xs ys : List Task) → RowsStep xs (xs ++ ys)
RowsStep-append [] ys = tt
RowsStep-append (x ∷ xs) ys = ((refl, refl, inl refl), RowsStep-append xs ys)

RowsStep-update_where :
    (p : Task → Bool) (f : Task → Task) (xs : List Task)
    → ((x : Task) → p x ≡ true → RowStep x (f x))
    → RowsStep xs (update_where p f xs)
RowsStep-update_where p f [] h = tt
RowsStep-update_where p f (x ∷ xs) h = (one (p x) (h x), RowsStep-update_where p f xs h)
  where
    one : (b : Bool) → (b ≡ true → RowStep x (f x)) → RowStep x (if b then f x else x)
    one true k = k refl
    one false k = (refl, refl, inl refl)

bump_step :
    (ctx : RequestContext) (task_id v : ℕ) (us : List FieldUpdate) (x : Task)
    → locked_row ctx task_id v x ≡ true
    → RowStep x (bump us v x)
bump_step ctx task_id v us x h =
    let keys = apply_updates_keys us x in (keys.0, keys.1, inr (ground arith))

soft_delete_step :
    (ctx : RequestContext) (now task_id : ℕ) (db : Db)
    → RowsStep db.tasks (soft_delete ctx now task_id db).1.tasks
unfolding soft_delete
soft_delete_step ctx now task_id db = elim (Bool-cases (is_some (get_by_id ctx task_id db))) [
  | inl found ↦
      rw found
        (RowsStep-update_where (visible_task ctx task_id) _ db.tasks λ x h. (refl, refl, inl refl))
  | inr missing ↦ rw missing (RowsStep-refl db.tasks)
]

module _ {A : Type 0} {ctx : RequestContext} {task_id : ℕ} {seen db : Db} (r : Result A × Db) where
  rows_step : Outcome ctx task_id seen db r → RowsStep db.tasks r.1.tasks
  rows_step (in_place (refused e c h)) = rw h (RowsStep-refl db.tasks)
  rows_step (in_place (kept a h)) = rw h (RowsStep-refl db.tasks)
  rows_step (in_place (changed a task us logs evs found current sound loggable h)) =
      rw h (RowsStep-update_where _ _ db.tasks (bump_step ctx task_id task.version us))
  rows_step (inserted a t log evs own fresh loggable h) = rw h (RowsStep-append db.tasks _)
  rows_step (deleted a now evs h) = unfold publish in rw h (soft_delete_step ctx now task_id db)

-- No method removes or reorders rows or moves one to another organization, and a row whose content
-- changes other than by soft deletion has its version raised by exactly one.
pub run_versions :
    (synchronized : Task → Task → Task) (ctx : RequestContext) (task_id : ℕ) (c : Command)
    (seen db : Db)
    → RowsStep db.tasks (run synchronized ctx task_id c seen db).1.tasks
run_versions synchronized ctx task_id c seen db =
    rows_step _ (run-Outcome synchronized ctx task_id seen db c)

-- Once a row has been written, no row has the version that was read.
none_current :
    (ctx : RequestContext) (task_id v : ℕ) (us : List FieldUpdate) (rows : List Task)
    → count_where
        (locked_row ctx task_id v)
        (update_where (locked_row ctx task_id v) (bump us v) rows)
      ≡ 0
none_current ctx task_id v us [] = refl
none_current ctx task_id v us (r ∷ rows) =
    ground (arith, apply_updates_keys us r, none_current ctx task_id v us rows)

-- The same organization, another user and another request.
abbrev pub other_request : RequestContext → ℕ → String → RequestContext
other_request ctx user_id request_id = record ctx { user_id = user_id; request_id = request_id }

module _ {A B : Type 0} {ctx : RequestContext} {user_id : ℕ} {request_id : String} {task_id : ℕ}
    {seen db : Db} (r : Result A × Db) (q : Result B × Db) where
  second_is_refused :
      InPlace ctx task_id seen db r
      → InPlace (other_request ctx user_id request_id) task_id seen r.1 q
      → r.1 ≢ db
      → q.1 ≡ r.1
  unfolding get_by_id
  second_is_refused first (refused e c h) wrote = ap (λ (p : Result B × Db). p.1) h
  second_is_refused first (kept a h) wrote = ap (λ (p : Result B × Db). p.1) h
  second_is_refused (refused e c h') second wrote =
      absurd (wrote (ap (λ (p : Result A × Db). p.1) h'))
  second_is_refused (kept a h') second wrote = absurd (wrote (ap (λ (p : Result A × Db). p.1) h'))
  second_is_refused (changed a task us logs evs found current sound loggable h)
        (changed a' task' us' logs' evs' found' current' sound' loggable' h') wrote =
      let same : task' ≡ task = cc (found, found') in
      absurd (
        current' (
          ap (λ (t : Task). count_where (locked_row ctx task_id t.version) r.1.tasks) same
          ∙ ap (λ (p : Result A × Db). count_where (locked_row ctx task_id task.version) p.1.tasks)
              h
          ∙ none_current ctx task_id task.version us db.tasks))

-- No lost update: when two updates, by users of one organization and of whatever kind, have read
-- the same state, and the first has written something, the second writes nothing.
pub no_lost_update :
    (synchronized : Task → Task → Task) (ctx : RequestContext) (user_id : ℕ) (request_id : String)
    (task_id : ℕ) (c d : Command) (seen db : Db)
    → IsUpdate c
    → IsUpdate d
    → (run synchronized ctx task_id c seen db).1 ≢ db
    → (run synchronized
        (other_request ctx user_id request_id)
        task_id
        d
        seen
        (run synchronized ctx task_id c seen db).1).1
      ≡ (run synchronized ctx task_id c seen db).1
no_lost_update synchronized ctx user_id request_id task_id c d seen db hc hd =
    second_is_refused _ _ (run-InPlace synchronized ctx task_id seen db c hc)
      (run-InPlace synchronized (other_request ctx user_id request_id) task_id seen _ d hd)
