-- ===== src/Events/Bus.antt =====
-- events/event_router.py, event_dispatcher.py, event_publisher.py and event_bus.py.
use hire_ai.Prelude.{
  ℕ, ◌+◌, String, Bool, false, ◌&&◌, Option, none, some, List, [], ◌∷◌, ◌++◌, find, filter,
  update_first, ltb, leb, ◌==◌, is_some, if◌then◌else◌,
}
use hire_ai.Events.{
  pending, delivered, retrying, dead_letter, is_open, is_delivered, same_event_type, EventType,
  AiEvent, Subscription, Delivery, EventDb, is_subscription, is_delivery,
}
use hire_ai.Events.Repository.{Draft, append}
use hire_ai.Events.Registry.{
  Outcome, handled, timed_out, raised, session_lost, is_lost, Handlers, get_handler,
}

abbrev pub is_active : EventType → Subscription → Bool
is_active event_type s = same_event_type s.event_type event_type && s.enabled

unfoldable pub get_active_subscriptions : EventType → EventDb → List Subscription
get_active_subscriptions event_type db = filter (is_active event_type) db.subscriptions

abbrev pub is_pair : (event_id subscriber_id : ℕ) → Delivery → Bool
is_pair event_id subscriber_id d = (d.event_id == event_id) && (d.subscriber_id == subscriber_id)

-- `_get_existing_delivery`; where a pair has two rows, which routing alone never makes, the source
-- raises and this takes the first.
unfoldable pub get_existing_delivery :
    (event_id subscriber_id : ℕ) → List Delivery → Option Delivery
get_existing_delivery event_id subscriber_id rows = find (is_pair event_id subscriber_id) rows

unfoldable pub new_delivery : (new_id : ℕ) → AiEvent → (subscriber_id : ℕ) → Delivery
new_delivery new_id event subscriber_id = record {
  id = new_id;
  event_id = event.id;
  subscriber_id = subscriber_id;
  status = pending;
  attempt = 0;
  last_error = none;
  delivered_at = none;
  dead_letter_reason = none;
  failed_subscriber = none;
  failed_attempt = none;
  failed_at = none;
  lease_owner = none;
  lease_expires_at = none;
  processed_event_key = some event.event_key;
}

-- The loop of `route`; `fresh` gives the identifier of the delivery to a subscription.
unfoldable pub route_all :
    (fresh : ℕ → ℕ) → AiEvent → List Subscription → List Delivery → List Delivery × List Delivery
route_all fresh event [] rows = ([], rows)
route_all fresh event (sub ∷ subs) rows = elim (get_existing_delivery event.id sub.id rows) [
  | some existing ↦ let rest = route_all fresh event subs rows in (existing ∷ rest.0, rest.1)
  | none ↦
      let delivery = new_delivery (fresh sub.id) event sub.id in
      let rest = route_all fresh event subs (rows ++ delivery ∷ []) in (delivery ∷ rest.0, rest.1)
]

-- `route`
unfoldable pub route : (fresh : ℕ → ℕ) → AiEvent → EventDb → List Delivery × EventDb
route fresh event db =
    let routed =
      route_all fresh event (get_active_subscriptions event.event_type db) db.deliveries in
    (routed.0, record db { deliveries = routed.1 })

-- What a dispatcher brings along: its process (`WORKER_ID`), the registered handlers, the clock when
-- it takes up a delivery and when it records the outcome, and the texts of its messages.
pub record Dispatcher : Type 0 where
  pub worker_id : ℕ
  pub registry : Handlers
  pub taken_at : ℕ → ℕ  -- by the delivery's identifier
  pub recorded_at : ℕ → ℕ
  pub timeout_text : String → ℕ → String
  pub exhausted_text : ℕ → String

abbrev pub lease_duration_seconds : ℕ
lease_duration_seconds = 120

-- Whether another dispatcher's lease is still running.
abbrev pub is_leased : (now : ℕ) → Delivery → Bool
is_leased now d = elim d.lease_owner [
  | none ↦ false
  | some owner ↦ elim d.lease_expires_at [ none ↦ false | some expiry ↦ ltb now expiry ]
]

abbrev pub leased_row : (worker_id now : ℕ) → Delivery → Delivery
leased_row worker_id now d = record d {
  lease_owner = some worker_id;
  lease_expires_at = some (now + lease_duration_seconds);
}

-- `retry_limit or 3`, `timeout_seconds or 60`
abbrev pub or_default : (default n : ℕ) → ℕ
or_default default n = if n == 0 then default else n

abbrev pub delivered_row : (now attempt : ℕ) → Delivery → Delivery
delivered_row now attempt d = record d {
  status = delivered;
  attempt = attempt;
  delivered_at = some now;
  lease_owner = none;
  lease_expires_at = none;
  last_error = none;
}

abbrev pub is_due : (event_id : ℕ) → Delivery → Bool
is_due event_id d = (d.event_id == event_id) && is_open d.status

-- What raises is rolled back by the caller.
abbrev pub or_unchanged : EventDb → Option EventDb → EventDb
or_unchanged db none = db
or_unchanged db (some db') = db'

module _ (env : Dispatcher) where
  -- The row that `_handle_failure` writes.
  unfoldable pub failed_row :
      (now : ℕ) → Subscription → (attempt : ℕ) → String → Delivery → Delivery
  failed_row now sub attempt error_msg d =
      if leb (or_default 3 sub.retry_limit) attempt
      then record d {
        status = dead_letter;
        attempt = attempt;
        last_error = some error_msg;
        dead_letter_reason = some (env.exhausted_text (or_default 3 sub.retry_limit));
        failed_subscriber = some sub.subscriber_name;
        failed_attempt = some attempt;
        failed_at = some now;
        lease_owner = none;
        lease_expires_at = none;
      }
      else record d {
        status = retrying;
        attempt = attempt;
        last_error = some error_msg;
        lease_owner = none;
        lease_expires_at = none;
      }

  -- The row that the handler's outcome writes.
  unfoldable pub outcome_row :
      (now : ℕ) → Subscription → (attempt : ℕ) → Outcome → Delivery → Delivery
  outcome_row now sub attempt handled d = delivered_row now attempt d
  outcome_row now sub attempt timed_out d =
      failed_row now sub attempt
        (env.timeout_text sub.subscriber_name (or_default 60 sub.timeout_seconds)) d
  outcome_row now sub attempt (raised e) d = failed_row now sub attempt e d
  outcome_row now sub attempt session_lost d = d

  -- `_process_delivery`; the lease just written is the dispatcher's own. none where the UPDATE that
  -- records the outcome raises, since the handler lost the session.
  unfoldable pub process_delivery : AiEvent → Delivery → EventDb → Option EventDb
  process_delivery event d db = elim (find (is_subscription d.subscriber_id) db.subscriptions) [
    | none ↦ some db
    | some sub ↦
        if (is_some d.processed_event_key && is_delivered d.status)
        then some db
        else if is_leased (env.taken_at d.id) d
        then some db
        else let leased =
            update_first (is_delivery d.id) (leased_row env.worker_id (env.taken_at d.id))
              db.deliveries in
          elim (get_handler sub.subscriber_name env.registry) [
            | none ↦ some (record db { deliveries = leased })
            | some handler ↦
                let outcome = handler event (d.attempt + 1) in
                if is_lost outcome
                then none
                else some (record db {
                  deliveries =
                      update_first (is_delivery d.id)
                        (outcome_row (env.recorded_at d.id) sub (d.attempt + 1) outcome) leased;
                })
          ]
  ]

  unfoldable pub process_all : AiEvent → List Delivery → EventDb → Option EventDb
  process_all event [] db = some db
  process_all event (d ∷ rest) db = elim (process_delivery event d db) [
    | none ↦ none
    | some db' ↦ process_all event rest db'
  ]

  -- `dispatch`; none where it raises, and the caller's session is to be rolled back.
  unfoldable pub dispatch : AiEvent → EventDb → Option EventDb
  dispatch event db = process_all event (filter (is_due event.id) db.deliveries) db

  -- `publish`, and `emit`, which calls it; none when the payload is refused, or
  -- the dispatch raises.
  -- No expiry is passed on.
  unfoldable pub publish :
      (isoformat uuid_str : ℕ → String) (fresh : ℕ → ℕ) (now new_id new_key : ℕ)
      → Draft
      → EventDb
      → Option EventDb
  publish isoformat uuid_str fresh now new_id new_key draft db =
      elim (append isoformat uuid_str now new_id new_key (record draft { expires_at = none }) db) [
        | none ↦ none
        | some (event, stored) ↦
            let routed = route fresh event stored in
            elim routed.0 [ [] ↦ some routed.1 | d ∷ ds ↦ dispatch event routed.1 ]
      ]
