-- ===== src/Task/Sound.antt =====
-- A task has a completion date exactly when its status is COMPLETED: the updates that the methods
-- plan keep that.
use hire_ai.Prelude.{
  ℕ, ◌≡◌, refl, ◌∙◌, Bool, true, false, Option, none, some, List, [], ◌∷◌, ◌++◌, is_some, All,
  All-append, arith,
}
use mathlib.Core.Path.{subst}
use mathlib.Core.List.{append-nil}
use hire_ai.Task.{Task, TaskStatus, RequestContext, TaskUpdateRequest, same_status}
use hire_ai.Task.Store.{
  ok, FieldUpdate, set_status, set_completed_at, set_title, set_description, set_priority, set_type,
  set_due_at, set_reminder_at, apply_update, apply_updates, metadata_is_valid,
}
use hire_ai.Task.Update.{Changes, given, status_part, assignee_part, simple_part, plan_update}
use hire_ai.Task.Service.{stamp}
use hire_ai.Task.WriteBack.{IsLoggable}

abbrev pub IsConsistent : Task → Type 0
IsConsistent t = same_status t.status TaskStatus.completed ≡ is_some t.completed_at

-- What an update needs to know of the row that it is applied to.
abbrev pub AgreesWith : Task → Task → Type 0
AgreesWith task row = (row.status ≡ task.status) × (row.completed_at ≡ task.completed_at)

abbrev pub IsSound : Task → List FieldUpdate → Type 0
IsSound task us =
    (row : Task) → AgreesWith task row → IsConsistent row → IsConsistent (apply_updates us row)

abbrev is_quiet : FieldUpdate → Bool
is_quiet (set_status _) = false
is_quiet (set_completed_at _) = false
is_quiet _ = true

abbrev IsQuiet : List FieldUpdate → Type 0
IsQuiet us = All (λ u. is_quiet u ≡ true) us

apply_updates-append :
    (us vs : List FieldUpdate) (t : Task)
    → apply_updates (us ++ vs) t ≡ apply_updates vs (apply_updates us t)
unfolding apply_updates
apply_updates-append [] vs t = refl
apply_updates-append (u ∷ us) vs t = apply_updates-append us vs (apply_update u t)

apply_update_quiet :
    (u : FieldUpdate) (t : Task)
    → is_quiet u ≡ true
    → ((apply_update u t).status ≡ t.status) × ((apply_update u t).completed_at ≡ t.completed_at)
unfolding apply_update
apply_update_quiet (set_status _) t h = cc
apply_update_quiet (set_completed_at _) t h = cc
apply_update_quiet _ t h = (refl, refl)

apply_updates_quiet :
    (us : List FieldUpdate) (t : Task) → IsQuiet us → AgreesWith t (apply_updates us t)
unfolding apply_updates
apply_updates_quiet [] t h = (refl, refl)
apply_updates_quiet (u ∷ us) t h =
    let now = apply_update_quiet u t h.0 in
    let rest = apply_updates_quiet us (apply_update u t) h.1 in (rest.0 ∙ now.0, rest.1 ∙ now.1)

-- Updates of other fields may follow.
pub IsSound-append :
    (task : Task) (us vs : List FieldUpdate)
    → IsSound task us
    → IsQuiet vs
    → IsSound task (us ++ vs)
IsSound-append task us vs sound quiet row agrees consistent =
    let kept = apply_updates_quiet vs (apply_updates us row) quiet in
    rw (apply_updates-append us vs row) (rw (kept.0, kept.1) (sound row agrees consistent))

given-IsQuiet {ℓ} :
    {A : Type ℓ} (set : A → FieldUpdate) (o : Option A) (rest : List FieldUpdate)
    → ((a : A) → is_quiet (set a) ≡ true)
    → IsQuiet rest
    → IsQuiet (given set o ++ rest)
given-IsQuiet set none rest h hr = hr
given-IsQuiet set (some a) rest h hr = (h a, hr)

simple_part-IsQuiet : (request : TaskUpdateRequest) → IsQuiet (simple_part request)
unfolding simple_part
simple_part-IsQuiet request =
    given-IsQuiet set_title request.title _ (λ a. refl)
      (given-IsQuiet set_description request.description _ (λ a. refl)
        (given-IsQuiet set_priority request.priority _ (λ a. refl)
          (given-IsQuiet set_type request.type _ (λ a. refl)
            (given-IsQuiet set_due_at request.due_at _ (λ a. refl)
              (rw append-nil at
                (given-IsQuiet set_reminder_at request.reminder_at [] (λ a. refl) tt))))))

assignee_part-IsQuiet :
    (ctx : RequestContext) (task : Task) (o : Option ℕ) → IsQuiet (assignee_part ctx task o).0
unfolding assignee_part
assignee_part-IsQuiet ctx task none = tt
assignee_part-IsQuiet ctx task (some a) = ground arith

assignee_part-IsLoggable :
    (ctx : RequestContext) (task : Task) (o : Option ℕ) → IsLoggable (assignee_part ctx task o).1
unfolding assignee_part metadata_is_valid
assignee_part-IsLoggable ctx task none = tt
assignee_part-IsLoggable ctx task (some a) = ground arith

status_part-IsLoggable :
    (ctx : RequestContext) (now : ℕ) (task : Task) (o : Option TaskStatus) (ch : Changes)
    → status_part ctx now task o ≡ ok ch
    → IsLoggable ch.1
unfolding status_part metadata_is_valid
status_part-IsLoggable ctx now task none ch h = ground arith
status_part-IsLoggable ctx now task (some s) ch h = ground arith

status_part-IsSound :
    (ctx : RequestContext) (now : ℕ) (task : Task) (o : Option TaskStatus) (ch : Changes)
    → status_part ctx now task o ≡ ok ch
    → IsSound task ch.0
unfolding status_part apply_updates
status_part-IsSound ctx now task none ch h row agrees consistent = ground arith
status_part-IsSound ctx now task (some s) ch h row agrees consistent = ground arith

-- The updates give a row that is as it was read this status.
abbrev pub Gives : TaskStatus → Task → List FieldUpdate → Type 0
Gives new task us = (row : Task) → AgreesWith task row → (apply_updates us row).status ≡ new

Gives-append :
    (new : TaskStatus) (task : Task) (us vs : List FieldUpdate)
    → Gives new task us
    → IsQuiet vs
    → Gives new task (us ++ vs)
Gives-append new task us vs gives quiet row agrees =
    rw (apply_updates-append us vs row)
      ((apply_updates_quiet vs (apply_updates us row) quiet).0 ∙ gives row agrees)

same_status-eq : (a b : TaskStatus) → same_status a b ≡ true → b ≡ a
same_status-eq a b h = ground arith

status_part-Gives :
    (ctx : RequestContext) (now : ℕ) (task : Task) (new : TaskStatus) (ch : Changes)
    → status_part ctx now task (some new) ≡ ok ch
    → Gives new task ch.0
unfolding status_part apply_updates
status_part-Gives ctx now task new ch h row agrees = ground (arith, same_status-eq new task.status)

-- A plan is made of its three parts.
pub plan_update_parts :
    (ctx : RequestContext) (now : ℕ) (task : Task) (request : TaskUpdateRequest) (ch : Changes)
    → plan_update ctx now task request ≡ ok ch
    → (changes : Changes) × (status_part ctx now task request.status ≡ ok changes)
      × (ch.0
          ≡ changes.0 ++ ((assignee_part ctx task request.assigned_to).0 ++ simple_part request))
      × (ch.1 ≡ changes.1 ++ (assignee_part ctx task request.assigned_to).1)
unfolding plan_update
plan_update_parts ctx now task request ch h = ground arith

-- What `update_task` plans is sound, and its activities have the metadata that they need.
pub plan_update-IsSound :
    (ctx : RequestContext) (now : ℕ) (task : Task) (request : TaskUpdateRequest) (ch : Changes)
    → plan_update ctx now task request ≡ ok ch
    → IsSound task ch.0 × IsLoggable ch.1
plan_update-IsSound ctx now task request ch h =
    let (changes, status, fields, logs) = plan_update_parts ctx now task request ch h in
    (
      rw fields (
          IsSound-append task changes.0 _
            (status_part-IsSound ctx now task request.status changes status)
            (All-append _ _ _ (assignee_part-IsQuiet ctx task request.assigned_to)
              (simple_part-IsQuiet request))),
      rw logs (
          All-append _ _ _ (status_part-IsLoggable ctx now task request.status changes status)
            (assignee_part-IsLoggable ctx task request.assigned_to)),
    )

pub plan_update-Gives :
    (ctx : RequestContext) (now : ℕ) (task : Task) (request : TaskUpdateRequest) (ch : Changes)
    (new : TaskStatus) (later : ℕ)
    → request.status ≡ some new
    → plan_update ctx now task request ≡ ok ch
    → Gives new task (ch.0 ++ stamp ctx later)
plan_update-Gives ctx now task request ch new later asked h =
    let (changes, status, fields, logs) = plan_update_parts ctx now task request ch h in
    Gives-append new task ch.0 (stamp ctx later)
      (rw fields (
        Gives-append new task changes.0 _
          (status_part-Gives ctx now task new changes
            (subst (λ o. status_part ctx now task o ≡ ok changes) asked status))
          (All-append _ _ _ (assignee_part-IsQuiet ctx task request.assigned_to)
            (simple_part-IsQuiet request))))
      (refl, (refl, tt))
