-- ===== src/Events/Repeated.antt =====
-- Repeated dispatches of an event, and one failed attempt.
use mathlib.Core.Bool.{false≢true}
use mathlib.Core.Option.{none-ne-some, some-injective}
use hire_ai.Prelude.{
  ℕ, zero, suc, ◌+◌, ◌≡◌, refl, ap, ◌∙◌, inl, inr, String, Bool, true, false, ◌&&◌, none, some,
  List, [], ◌∷◌, map, find, any, All, ◌==◌, leb, is_some, if◌then◌else◌, arith, Bool-cases,
}
use hire_ai.Events.{
  EventStatus, retrying, dead_letter, is_open, is_delivered, AiEvent, Subscription, Delivery,
  EventDb, is_subscription, is_delivery,
}
use hire_ai.Events.Registry.{
  Outcome, handled, timed_out, raised, session_lost, Handler, get_handler,
}
use hire_ai.Events.Bus.{
  Dispatcher, is_leased, leased_row, or_default, failed_row, outcome_row, is_due, dispatch,
  or_unchanged,
}
use hire_ai.Events.Dispatching.{
  IsDistinct, settle, settle_due, settle_due-id, loses_session, loses_due, dispatch_isolated,
}

abbrev pub dispatch_times : Dispatcher → AiEvent → ℕ → EventDb → EventDb
dispatch_times env event zero db = db
dispatch_times env event (suc n) db =
    let before = dispatch_times env event n db in or_unchanged before (dispatch env event before)

abbrev pub is_failure : Outcome → Bool
is_failure handled = false
is_failure session_lost = false
is_failure _ = true

-- No handler that a delivery of the event can reach loses the session.
abbrev pub KeepsSession : Dispatcher → AiEvent → List Subscription → Type 0
KeepsSession env event subs = (d : Delivery) → loses_session env event subs d ≡ false

and_false : (b c : Bool) → c ≡ false → (b && c) ≡ false
and_false true c h = h
and_false false c h = refl

module _ (env : Dispatcher) (event : AiEvent) (db : EventDb) where
  abbrev pub step : Delivery → Delivery
  step = settle_due env event db.subscriptions

  abbrev pub steps : ℕ → Delivery → Delivery
  steps zero d = d
  steps (suc n) d = step (steps n d)

  All-map_step :
      (n : ℕ) (ds : List Delivery)
      → All (λ x. (n == x.id) ≡ false) ds
      → All (λ x. (n == x.id) ≡ false) (map step ds)
  All-map_step n [] h = tt
  All-map_step n (d ∷ ds) h =
      (rw (settle_due-id env event db.subscriptions d) h.0, All-map_step n ds h.1)

  map_step-IsDistinct : (ds : List Delivery) → IsDistinct ds → IsDistinct (map step ds)
  map_step-IsDistinct [] h = tt
  map_step-IsDistinct (d ∷ ds) h = (
    rw (settle_due-id env event db.subscriptions d) (All-map_step d.id ds h.0),
    map_step-IsDistinct ds h.1,
  )

  find-map_step :
      (key : ℕ) (ds : List Delivery) (d : Delivery)
      → find (is_delivery key) ds ≡ some d
      → find (is_delivery key) (map step ds) ≡ some (step d)
  find-map_step key [] d h = absurd (none-ne-some _ h)
  find-map_step key (x ∷ ds) d h = elim (Bool-cases (x.id == key)) [
    | inl hit ↦
        rw (settle_due-id env event db.subscriptions x, hit)
          (ap (λ y. some (step y)) (some-injective _ _ (rw hit at h)))
    | inr miss ↦
        rw (settle_due-id env event db.subscriptions x, miss)
          (find-map_step key ds d (rw miss at h))
  ]

  abbrev pub maps : ℕ → List Delivery → List Delivery
  maps zero ds = ds
  maps (suc n) ds = map step (maps n ds)

  maps-IsDistinct : (n : ℕ) → IsDistinct db.deliveries → IsDistinct (maps n db.deliveries)
  maps-IsDistinct zero h = h
  maps-IsDistinct (suc n) h = map_step-IsDistinct (maps n db.deliveries) (maps-IsDistinct n h)

  none_lost :
      KeepsSession env event db.subscriptions
      → (ds : List Delivery) → any (loses_due env event db.subscriptions) ds ≡ false
  none_lost keeps [] = refl
  none_lost keeps (d ∷ ds) =
      rw (and_false (is_due event.id d) (loses_session env event db.subscriptions d) (keeps d))
        (none_lost keeps ds)

  pub dispatch_times-maps :
      (n : ℕ)
      → KeepsSession env event db.subscriptions
      → IsDistinct db.deliveries
      → dispatch_times env event n db ≡ record db { deliveries = maps n db.deliveries }
  dispatch_times-maps zero keeps h = refl
  dispatch_times-maps (suc n) keeps h =
      ap (λ x. or_unchanged x (dispatch env event x)) (dispatch_times-maps n keeps h)
      ∙ ap (or_unchanged (record db { deliveries = maps n db.deliveries })) (
          dispatch_isolated env event (record db { deliveries = maps n db.deliveries })
            (maps-IsDistinct n h)
          ∙ ap
              (λ b.
                if b then none else some (record db { deliveries = maps (suc n) db.deliveries }))
              (none_lost keeps (maps n db.deliveries)))

  pub find-maps :
      (n key : ℕ) (d : Delivery)
      → find (is_delivery key) db.deliveries ≡ some d
      → find (is_delivery key) (maps n db.deliveries) ≡ some (steps n d)
  find-maps zero key d h = h
  find-maps (suc n) key d h =
      find-map_step key (maps n db.deliveries) (steps n d) (find-maps n key d h)

-- A failed attempt.
module _ (env : Dispatcher) (now : ℕ) (sub : Subscription) (attempt : ℕ) (d : Delivery) where
  -- What the failed attempt leaves: the row's keys, a free lease, and the status by the limit.
  abbrev pub IsFailedRow : Delivery → Type 0
  IsFailedRow row =
      (row.event_id ≡ d.event_id)
      × (row.subscriber_id ≡ d.subscriber_id)
      × (row.lease_owner ≡ none)
      × (row.attempt ≡ attempt)
      × (row.status
          ≡ (if leb (or_default 3 sub.retry_limit) attempt then dead_letter else retrying))

  failed_row-IsFailedRow : (msg : String) → IsFailedRow (failed_row env now sub attempt msg d)
  unfolding failed_row
  failed_row-IsFailedRow msg = elim (Bool-cases (leb (or_default 3 sub.retry_limit) attempt)) [
    | inl last ↦ rw (last, failed_row) (refl, refl, refl, refl, refl)
    | inr more ↦ rw (more, failed_row) (refl, refl, refl, refl, refl)
  ]

  pub outcome_row-IsFailedRow :
      (o : Outcome) → is_failure o ≡ true → IsFailedRow (outcome_row env now sub attempt o d)
  unfolding outcome_row
  outcome_row-IsFailedRow handled h = absurd (false≢true h)
  outcome_row-IsFailedRow session_lost h = absurd (false≢true h)
  outcome_row-IsFailedRow timed_out h = failed_row-IsFailedRow _
  outcome_row-IsFailedRow (raised e) h = failed_row-IsFailedRow e

open_undelivered : (s : EventStatus) (b : Bool) → is_open s ≡ true → (b && is_delivered s) ≡ false
open_undelivered s b h = ground arith

-- A due delivery with a free lease and a registered handler is handed to it.
pub settle_run :
    (env : Dispatcher) (event : AiEvent) (subs : List Subscription) (d : Delivery)
    (sub : Subscription) (handler : Handler)
    → d.event_id ≡ event.id
    → is_open d.status ≡ true
    → d.lease_owner ≡ none
    → find (is_subscription d.subscriber_id) subs ≡ some sub
    → get_handler sub.subscriber_name env.registry ≡ some handler
    → settle_due env event subs d
      ≡ outcome_row env
          (env.recorded_at d.id)
          sub
          (d.attempt + 1)
          (handler event (d.attempt + 1))
          (leased_row env.worker_id (env.taken_at d.id) d)
settle_run env event subs d sub handler ours due free found registered =
    rw (is_due-yes, settle_due)
      (rw (found, settle)
        (rw (open_undelivered d.status (is_some d.processed_event_key) due, settle)
          (rw (unleased, settle) (rw (registered, settle) refl))))
  where
    is_due-yes : is_due event.id d ≡ true
    is_due-yes = rw (ours, due) (ground arith)

    unleased : is_leased (env.taken_at d.id) d ≡ false
    unleased = rw free refl
