-- ===== src/Events/Attempts.antt =====
-- Dispatching again and again a delivery whose handler always fails.
use mathlib.Core.Path.{subst}
use hire_ai.Prelude.{
  ℕ, zero, suc, ◌+◌, ◌≤◌, ◌<◌, ◌≡◌, refl, sym, ap, ◌∙◌, inl, inr, true, false, none, some, find,
  ltb, leb, if◌then◌else◌, arith, Bool-cases,
}
use hire_ai.Events.{
  EventStatus, retrying, dead_letter, is_open, AiEvent, Subscription, Delivery, EventDb,
  is_subscription, is_delivery,
}
use hire_ai.Events.Registry.{Handler, get_handler}
use hire_ai.Events.Bus.{Dispatcher, leased_row, or_default, outcome_row, is_due}
use hire_ai.Events.Dispatching.{IsDistinct, settle_due}
use hire_ai.Events.Repeated.{
  KeepsSession, dispatch_times, steps, dispatch_times-maps, find-maps, is_failure, IsFailedRow,
  outcome_row-IsFailedRow, settle_run,
}

-- The status of a failing delivery after n dispatches.
abbrev pub status_after : (limit : ℕ) → EventStatus → ℕ → EventStatus
status_after limit first zero = first
status_after limit first (suc n) = if leb limit (suc n) then dead_letter else retrying

module _ (env : Dispatcher) (event : AiEvent) (db : EventDb) (d : Delivery) (sub : Subscription)
    (handler : Handler) (ours : d.event_id ≡ event.id) (due : is_open d.status ≡ true)
    (free : d.lease_owner ≡ none) (unattempted : d.attempt ≡ 0)
    (found : find (is_subscription d.subscriber_id) db.subscriptions ≡ some sub)
    (registered : get_handler sub.subscriber_name env.registry ≡ some handler)
    (fails : (n : ℕ) → is_failure (handler event n) ≡ true)
    (keeps : KeepsSession env event db.subscriptions) where
  abbrev limit : ℕ
  limit = or_default 3 sub.retry_limit

  abbrev IsAfter : ℕ → Delivery → Type 0
  IsAfter n row =
      (row.event_id ≡ event.id)
      × (row.subscriber_id ≡ d.subscriber_id)
      × (row.lease_owner ≡ none)
      × (row.attempt ≡ (if leb n limit then n else limit))
      × (row.status ≡ status_after limit d.status n)

  limit-positive : 1 ≤ limit
  limit-positive = ground arith

  open_after : (n : ℕ) → n < limit → is_open (status_after limit d.status n) ≡ true
  open_after zero h = due
  open_after (suc n) h = ground (arith, h)

  dead_after : (n : ℕ) → limit ≤ n → status_after limit d.status n ≡ dead_letter
  dead_after zero h = absurd (omega (arith, h, limit-positive))
  dead_after (suc n) h = ground (arith, h)

  next_attempt :
      (n a : ℕ)
      → n < limit
      → a ≡ (if leb n limit then n else limit)
      → a + 1 ≡ (if leb (suc n) limit then suc n else limit)
  next_attempt n a h e = ground (arith, h, e)

  same_attempt :
      (n a : ℕ)
      → limit ≤ n
      → a ≡ (if leb n limit then n else limit)
      → a ≡ (if leb (suc n) limit then suc n else limit)
  same_attempt n a h e = ground (arith, h, e)

  attempt_before : (n a : ℕ) → n < limit → a ≡ (if leb n limit then n else limit) → a + 1 ≡ suc n
  attempt_before n a h e = ground (arith, h, e)

  failed_step :
      (n : ℕ) (row : Delivery)
      → n < limit
      → IsAfter n row
      → IsAfter (suc n) (settle_due env event db.subscriptions row)
  failed_step n row more h = subst (IsAfter (suc n)) (sym run) (
    failed.0 ∙ h.0,
    failed.1 ∙ h.1,
    failed.2,
    failed.3 ∙ next_attempt n row.attempt more h.3,
    failed.4
        ∙ ap (λ a. if leb limit a then dead_letter else retrying)
            (attempt_before n row.attempt more h.3),
  )
    where
      run :
          settle_due env event db.subscriptions row
          ≡ outcome_row env
              (env.recorded_at row.id)
              sub
              (row.attempt + 1)
              (handler event (row.attempt + 1))
              (leased_row env.worker_id (env.taken_at row.id) row)
      run =
          settle_run env event db.subscriptions row sub handler h.0
            (ap is_open h.4 ∙ open_after n more) h.2
            (ap (λ k. find (is_subscription k) db.subscriptions) h.1 ∙ found) registered

      failed :
          IsFailedRow env
            (env.recorded_at row.id)
            sub
            (row.attempt + 1)
            (leased_row env.worker_id (env.taken_at row.id) row)
            (outcome_row env
              (env.recorded_at row.id)
              sub
              (row.attempt + 1)
              (handler event (row.attempt + 1))
              (leased_row env.worker_id (env.taken_at row.id) row))
      failed =
          outcome_row-IsFailedRow env (env.recorded_at row.id) sub (row.attempt + 1)
            (leased_row env.worker_id (env.taken_at row.id) row) (handler event (row.attempt + 1))
            (fails (row.attempt + 1))

  closed_step :
      (n : ℕ) (row : Delivery)
      → limit ≤ n
      → IsAfter n row
      → IsAfter (suc n) (settle_due env event db.subscriptions row)
  closed_step n row over h =
      rw (idle, settle_due)
        (
          h.0,
          h.1,
          h.2,
          same_attempt n row.attempt over h.3,
          h.4 ∙ dead_after n over ∙ sym (dead_after (suc n) (omega (arith, over))),
        )
    where
      idle : is_due event.id row ≡ false
      idle = rw (h.4 ∙ dead_after n over) (ground arith)

  steps-IsAfter : (n : ℕ) → IsAfter n (steps env event db n d)
  steps-IsAfter zero = (ours, refl, free, unattempted ∙ ground arith, refl)
  steps-IsAfter (suc n) = elim (Bool-cases (ltb n limit)) [
    | inl more ↦ failed_step n (steps env event db n d) (ground (arith, more)) (steps-IsAfter n)
    | inr over ↦ closed_step n (steps env event db n d) (ground (arith, over)) (steps-IsAfter n)
  ]

  -- Let a new delivery with a free lease belong to a subscription whose registered handler raises or
  -- times out at every attempt, in a table with distinct keys, let no handler that the event reaches lose
  -- the database session, and dispatch the event n times. Then the delivery was attempted n times, but never more often than the retry limit (3 where it is 0): it
  -- is RETRYING before the limit and DEAD_LETTER from the limit on, with no lease held.
  pub dispatch_times-dead_lettered :
      (n : ℕ)
      → IsDistinct db.deliveries
      → find (is_delivery d.id) db.deliveries ≡ some d
      → (row : Delivery) × (find (is_delivery d.id) (dispatch_times env event n db).deliveries
          ≡ some row)
        × (row.attempt
            ≡ (if leb n (or_default 3 sub.retry_limit) then n else or_default 3 sub.retry_limit))
        × (row.status ≡ status_after (or_default 3 sub.retry_limit) d.status n)
        × (row.lease_owner ≡ none)
  dispatch_times-dead_lettered n distinct there = (
    steps env event db n d,
    rw (dispatch_times-maps env event db n keeps distinct) (find-maps env event db n d.id d there),
    (steps-IsAfter n).3,
    (steps-IsAfter n).4,
    (steps-IsAfter n).2,
  )
