-- ===== src/Events.antt =====
-- The event bus: models/ai_event.py, ai_event_subscription.py, ai_event_delivery.py, and the event
-- enums of models/enums.py. Identifiers, keys, workers and instants (seconds) are numbers.
pub mod Serializer
mod Stored
pub mod Repository
pub mod Leases
pub mod Registry
pub mod Bus
mod Tests
pub mod Log
pub mod Sequence
pub mod Routing
pub mod Dispatching
pub mod Repeated
pub mod Attempts
use hire_ai.Prelude.{ℕ, String, Bool, true, false, Option, none, some, List, ◌==◌}
use hire_ai.Events.Serializer.{Json}

pub data EventStatus : Type 0 where
  pending delivered failed retrying dead_letter : EventStatus

pub data EventType : Type 0 where
  job_created job_started job_completed trace_created : EventType
  evaluation_completed learning_dataset_created learning_suggestion_created : EventType
  workflow_started workflow_completed campaign_started campaign_completed : EventType

abbrev pub same_event_type : EventType → EventType → Bool
same_event_type job_created job_created = true
same_event_type job_started job_started = true
same_event_type job_completed job_completed = true
same_event_type trace_created trace_created = true
same_event_type evaluation_completed evaluation_completed = true
same_event_type learning_dataset_created learning_dataset_created = true
same_event_type learning_suggestion_created learning_suggestion_created = true
same_event_type workflow_started workflow_started = true
same_event_type workflow_completed workflow_completed = true
same_event_type campaign_started campaign_started = true
same_event_type campaign_completed campaign_completed = true
same_event_type _ _ = false

-- `AIEvent`
pub record AiEvent : Type 0 where
  pub id : ℕ
  pub event_key : ℕ
  pub organization_id : ℕ
  pub event_type : EventType
  pub event_version : ℕ
  pub schema_version : String
  pub sequence_number : ℕ
  pub aggregate_type : Option String
  pub aggregate_id : Option ℕ
  pub correlation_id : Option ℕ
  pub causation_id : Option ℕ
  pub payload_json : Json
  pub status : EventStatus
  pub published_at : ℕ
  pub expires_at : Option ℕ
  pub archived : Bool

-- `AIEventSubscription`
pub record Subscription : Type 0 where
  pub id : ℕ
  pub subscriber_name : String
  pub subscriber_version : String
  pub handler_version : String
  pub event_type : EventType
  pub enabled : Bool
  pub retry_limit : ℕ
  pub timeout_seconds : ℕ
  pub created_at : ℕ

-- `AIEventDelivery`
pub record Delivery : Type 0 where
  pub id : ℕ
  pub event_id : ℕ
  pub subscriber_id : ℕ
  pub status : EventStatus
  pub attempt : ℕ
  pub last_error : Option String
  pub delivered_at : Option ℕ
  pub dead_letter_reason : Option String
  pub failed_subscriber : Option String
  pub failed_attempt : Option ℕ
  pub failed_at : Option ℕ
  pub lease_owner : Option ℕ
  pub lease_expires_at : Option ℕ
  pub processed_event_key : Option ℕ

pub record EventDb : Type 0 where
  pub events : List AiEvent
  pub subscriptions : List Subscription
  pub deliveries : List Delivery

-- `status.in_([PENDING, RETRYING])`
abbrev pub is_open : EventStatus → Bool
is_open pending = true
is_open retrying = true
is_open _ = false

abbrev pub is_delivered : EventStatus → Bool
is_delivered delivered = true
is_delivered _ = false

abbrev pub is_dead_letter : EventStatus → Bool
is_dead_letter dead_letter = true
is_dead_letter _ = false

abbrev pub is_event_pending : EventStatus → Bool
is_event_pending pending = true
is_event_pending _ = false

abbrev pub is_event : ℕ → AiEvent → Bool
is_event event_id e = e.id == event_id

abbrev pub is_subscription : ℕ → Subscription → Bool
is_subscription sub_id s = s.id == sub_id

abbrev pub is_delivery : ℕ → Delivery → Bool
is_delivery delivery_id d = d.id == delivery_id
