-- ===== src/Events/Tests.antt =====
-- A bus with two subscribers of finished jobs: one whose handler works, one whose handler raises.
use hire_ai.Prelude.{
  ℕ, ◌+◌, ◌≡◌, refl, inl, inr, Bool, Bool-cases, ◌==◌, if◌then◌else◌, String, true, false, none,
  some, List, [], ◌∷◌, map, All, count_where, find, ◌==◌, if◌then◌else◌, arith,
}
use hire_ai.Events.Serializer.{
  object, array, text, uuid, instant, no_items, item, Fields, no_fields, field, serialize, encode,
}
use hire_ai.Events.Stored.{IsPlainFields, serialize_roundtrip}
use hire_ai.Events.{
  pending, delivered, retrying, dead_letter, job_completed, AiEvent, Subscription, Delivery,
  EventDb, is_delivery,
}
use hire_ai.Events.Repository.{Draft, list_replay_events}
use hire_ai.Events.Registry.{handled, raised, HandlerMeta, get_handler, get_metadata}
use hire_ai.Events.Bus.{
  Dispatcher, is_pair, get_active_subscriptions, get_existing_delivery, new_delivery, route_all,
  route, process_all, process_delivery, outcome_row, failed_row, dispatch, or_unchanged,
}
use hire_ai.Events.Routing.{route_idem, route_exactly_one}
use hire_ai.Events.Dispatching.{loses_session, settle_due, dispatch_isolated}
use hire_ai.Events.Repeated.{KeepsSession, dispatch_times}
use hire_ai.Events.Attempts.{dispatch_times-dead_lettered}
use hire_ai.Events.Log.{IsSequenced, Extends}
use hire_ai.Events.Sequence.{
  EventOp, publish_op, mark_failed_op, archive_op, run_ops, run_ops-IsSequenced, run_ops-Extends,
  list_replay_events-in_order,
}

abbrev text_of : ℕ → String
text_of n = if n == 7 then "seven" else "other"

abbrev payload : Fields
payload = field "job_id" (uuid 7) (field "at" (array (item (instant 3) no_items)) no_fields)

abbrev stored : Fields
stored = field "job_id" (text "seven") (field "at" (array (item (text "other") no_items)) no_fields)

serialized : serialize text_of text_of payload ≡ some (object stored)
unfolding serialize encode
serialized = refl

serialize_roundtrip_example :
    (fields : Fields) × (object stored ≡ object fields)
    × IsPlainFields fields
    × (serialize text_of text_of fields ≡ some (object stored))
serialize_roundtrip_example = serialize_roundtrip text_of text_of payload (object stored) serialized

abbrev works : HandlerMeta
works = record {
  handler = λ event attempt. handled;
  subscriber_version = "v1";
  handler_version = "v1";
  supports_idempotency = true;
  timeout_seconds = 60;
}

abbrev breaks : HandlerMeta
breaks = record works { handler = λ event attempt. raised "KeyError()" }

abbrev dispatcher : Dispatcher
dispatcher = record {
  worker_id = 5;
  registry = ("observability", works) ∷ ("analytics", breaks) ∷ [];
  taken_at = λ id. 100 + id;
  recorded_at = λ id. 110 + id;
  timeout_text = λ name seconds. "timed out";
  exhausted_text = λ limit. "exhausted";
}

abbrev subscription : ℕ → String → Subscription
subscription sub_id name = record {
  id = sub_id;
  subscriber_name = name;
  subscriber_version = "v1";
  handler_version = "v1";
  event_type = job_completed;
  enabled = true;
  retry_limit = 2;
  timeout_seconds = 60;
  created_at = 0;
}

abbrev event : AiEvent
event = record {
  id = 40;
  event_key = 41;
  organization_id = 1;
  event_type = job_completed;
  event_version = 1;
  schema_version = "v1";
  sequence_number = 1;
  aggregate_type = none;
  aggregate_id = none;
  correlation_id = none;
  causation_id = none;
  payload_json = object stored;
  status = pending;
  published_at = 90;
  expires_at = some 95;
  archived = false;
}

abbrev unrouted : EventDb
unrouted = record {
  events = event ∷ [];
  subscriptions = subscription 1 "observability" ∷ subscription 2 "analytics" ∷ [];
  deliveries = [];
}

abbrev fresh : ℕ → ℕ
fresh sub_id = 200 + sub_id

abbrev delivery : ℕ → Delivery
delivery sub_id = record {
  id = fresh sub_id;
  event_id = 40;
  subscriber_id = sub_id;
  status = pending;
  attempt = 0;
  last_error = none;
  delivered_at = none;
  dead_letter_reason = none;
  failed_subscriber = none;
  failed_attempt = none;
  failed_at = none;
  lease_owner = none;
  lease_expires_at = none;
  processed_event_key = some 41;
}

abbrev routed : EventDb
routed = record unrouted { deliveries = delivery 1 ∷ delivery 2 ∷ [] }

route_test : (route fresh event unrouted).1 ≡ routed
unfolding route route_all get_active_subscriptions get_existing_delivery new_delivery
route_test = refl

route_idem_example :
    route (λ sub_id. sub_id) event (route fresh event unrouted).1 ≡ route fresh event unrouted
route_idem_example = route_idem fresh (λ sub_id. sub_id) event unrouted

route_exactly_one_example :
    All
      (λ s. count_where (is_pair 40 s.id) (route fresh event unrouted).1.deliveries ≡ 1)
      (get_active_subscriptions job_completed unrouted)
route_exactly_one_example = route_exactly_one fresh event unrouted (λ sub_id. omega arith)

dispatch_test :
    map
      (λ (d : Delivery). d.status)
      (or_unchanged routed (dispatch dispatcher event routed)).deliveries
    ≡ delivered ∷ retrying ∷ []
unfolding dispatch process_all process_delivery get_handler get_metadata outcome_row failed_row
dispatch_test = refl

dispatch_isolated_example :
    dispatch dispatcher event routed
    ≡ some (record routed {
      deliveries = map (settle_due dispatcher event routed.subscriptions) routed.deliveries;
    })
unfolding get_handler get_metadata
dispatch_isolated_example = dispatch_isolated dispatcher event routed ((refl, tt), (tt, tt))

registered : get_handler "analytics" dispatcher.registry ≡ some (λ e n. raised "KeyError()")
unfolding get_handler get_metadata
registered = refl

no_branch : (b c : Bool) → (if b then false else if c then false else false) ≡ false
no_branch true c = refl
no_branch false true = refl
no_branch false false = refl

keeps_session : KeepsSession dispatcher event routed.subscriptions
unfolding get_handler get_metadata
keeps_session d = elim (Bool-cases (1 == d.subscriber_id)) [
  | inl first ↦ rw (first, loses_session) (no_branch _ _)
  | inr e ↦ elim (Bool-cases (2 == d.subscriber_id)) [
    | inl second ↦ rw (e, loses_session) (rw (second, loses_session) (no_branch _ _))
    | inr e' ↦ rw (e, loses_session) (rw (e', loses_session) refl)
  ]
]

dispatch_times-dead_lettered_example :
    (row : Delivery) × (find (is_delivery 202) (dispatch_times dispatcher event 5 routed).deliveries
      ≡ some row)
    × (row.attempt ≡ 2)
    × (row.status ≡ dead_letter)
    × (row.lease_owner ≡ none)
dispatch_times-dead_lettered_example =
    dispatch_times-dead_lettered dispatcher event routed (delivery 2) (subscription 2 "analytics")
      (λ e n. raised "KeyError()") refl refl refl refl refl registered (λ n. refl) keeps_session 5
      ((refl, tt), (tt, tt)) refl

abbrev draft : Draft
draft = record {
  org_id = 1;
  event_type = job_completed;
  payload = payload;
  aggregate_type = none;
  aggregate_id = none;
  correlation_id = none;
  causation_id = none;
  event_version = 1;
  schema_version = "v1";
  expires_at = none;
}

abbrev ops : List EventOp
ops =
    publish_op dispatcher fresh 120 42 43 draft
    ∷ mark_failed_op 42
    ∷ publish_op dispatcher (λ sub_id. 300 + sub_id) 130 44 45 draft
    ∷ archive_op 140
    ∷ []

run_ops-IsSequenced_example : IsSequenced (run_ops text_of text_of ops unrouted).events
run_ops-IsSequenced_example = run_ops-IsSequenced text_of text_of ops unrouted (tt, tt)

run_ops-Extends_example : Extends unrouted.events (run_ops text_of text_of ops unrouted).events
run_ops-Extends_example = run_ops-Extends text_of text_of ops unrouted

list_replay_events-in_order_example :
    list_replay_events 1 job_completed 1 none 10 unrouted ≡ event ∷ []
list_replay_events-in_order_example =
    list_replay_events-in_order 1 job_completed 1 none 10 unrouted (tt, tt)
