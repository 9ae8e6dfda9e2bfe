-- ===== src/Events/Repository.antt =====
-- events/event_store.py and repositories/event_repository.py.
use hire_ai.Prelude.{
  ℕ, ◌+◌, String, Bool, true, false, not, ◌&&◌, Option, none, some, List, [], ◌∷◌, ◌++◌, find,
  filter, take, update_where, update_first, count_where, sort_by, ltb, leb, ◌==◌, str_eq,
  if◌then◌else◌,
}
use hire_ai.Events.Serializer.{Json, Fields, serialize}
use hire_ai.Events.{
  pending, delivered, failed, is_event_pending, EventType, same_event_type, AiEvent, Subscription,
  EventDb, is_event, is_subscription,
}

-- `func.max` over the rows of the organization; 0 when there is none.
unfoldable pub max_sequence : ℕ → List AiEvent → ℕ
max_sequence org_id [] = 0
max_sequence org_id (e ∷ rest) =
    let highest = max_sequence org_id rest in
    if (e.organization_id == org_id) && ltb highest e.sequence_number
    then e.sequence_number
    else highest

-- `_next_sequence_number`
unfoldable pub next_sequence_number : ℕ → EventDb → ℕ
next_sequence_number org_id db = max_sequence org_id db.events + 1

-- The arguments of `append` and `publish`.
pub record Draft : Type 0 where
  pub org_id : ℕ
  pub event_type : EventType
  pub payload : Fields
  pub aggregate_type : Option String
  pub aggregate_id : Option ℕ
  pub correlation_id : Option ℕ
  pub causation_id : Option ℕ
  pub event_version : ℕ
  pub schema_version : String
  pub expires_at : Option ℕ

unfoldable pub new_event : (now new_id new_key sequence_number : ℕ) → Json → Draft → AiEvent
new_event now new_id new_key sequence_number payload_json draft = record {
  id = new_id;
  event_key = new_key;
  organization_id = draft.org_id;
  event_type = draft.event_type;
  event_version = draft.event_version;
  schema_version = draft.schema_version;
  sequence_number = sequence_number;
  aggregate_type = draft.aggregate_type;
  aggregate_id = draft.aggregate_id;
  correlation_id = draft.correlation_id;
  causation_id = draft.causation_id;
  payload_json = payload_json;
  status = pending;
  published_at = now;
  expires_at = draft.expires_at;
  archived = false;
}

-- `append`; the identifier and the key are fresh ones. None stands for the serializer's TypeError.
unfoldable pub append :
    (isoformat uuid_str : ℕ → String) (now new_id new_key : ℕ)
    → Draft
    → EventDb
    → Option (AiEvent × EventDb)
append isoformat uuid_str now new_id new_key draft db =
    elim (serialize isoformat uuid_str draft.payload) [
      | none ↦ none
      | some payload_json ↦
          let event =
            new_event now new_id new_key (next_sequence_number draft.org_id db) payload_json
              draft in
          some (event, record db { events = db.events ++ event ∷ [] })
    ]

-- `mark_delivered`
unfoldable pub mark_event_delivered : ℕ → EventDb → EventDb
mark_event_delivered event_id db = record db {
  events = update_where (is_event event_id) (λ e. record e { status = delivered }) db.events;
}

-- `mark_failed`
unfoldable pub mark_event_failed : ℕ → EventDb → EventDb
mark_event_failed event_id db = record db {
  events = update_where (is_event event_id) (λ e. record e { status = failed }) db.events;
}

abbrev pub by_sequence : AiEvent → AiEvent → Bool
by_sequence e f = leb e.sequence_number f.sequence_number

-- `get_pending_events`
unfoldable pub get_pending_events : (limit : ℕ) → EventDb → List AiEvent
get_pending_events limit db =
    take limit
      (sort_by by_sequence (filter (λ e. is_event_pending e.status && not e.archived) db.events))

unfoldable pub get_event_by_id : ℕ → EventDb → Option AiEvent
get_event_by_id event_id db = find (is_event event_id) db.events

unfoldable pub get_event_by_key : ℕ → EventDb → Option AiEvent
get_event_by_key event_key db = find (λ e. e.event_key == event_key) db.events

-- A condition that the query has only when the argument is given.
abbrev pub given {ℓ} : {A : Type ℓ} → Option A → (A → Bool) → Bool
given none p = true
given (some a) p = p a

abbrev pub is_listed : ℕ → Option EventType → (since : Option ℕ) → AiEvent → Bool
is_listed org_id event_type since e =
    (e.organization_id == org_id)
    && (not e.archived
        && (given event_type (same_event_type e.event_type)
            && given since (λ t. leb t e.published_at)))

unfoldable pub list_events :
    ℕ → Option EventType → (since : Option ℕ) → (limit : ℕ) → EventDb → List AiEvent
list_events org_id event_type since limit db =
    take limit (sort_by by_sequence (filter (is_listed org_id event_type since) db.events))

abbrev pub is_replayed : ℕ → EventType → ℕ → Option ℕ → AiEvent → Bool
is_replayed org_id event_type from_sequence to_sequence e =
    (e.organization_id == org_id)
    && (same_event_type e.event_type event_type
        && (leb from_sequence e.sequence_number
            && (not e.archived && given to_sequence (leb e.sequence_number))))

unfoldable pub list_replay_events :
    ℕ
    → EventType
    → (from_sequence : ℕ) → (to_sequence : Option ℕ) → (limit : ℕ) → EventDb
    → List AiEvent
list_replay_events org_id event_type from_sequence to_sequence limit db = take limit (
    sort_by by_sequence
      (filter (is_replayed org_id event_type from_sequence to_sequence) db.events))

abbrev pub has_expired : (now : ℕ) → AiEvent → Bool
has_expired now e = elim e.expires_at [
  | none ↦ false
  | some expiry ↦ leb expiry now && not e.archived
]

-- `archive_expired_events`
unfoldable pub archive_expired_events : (now : ℕ) → EventDb → ℕ × EventDb
archive_expired_events now db = (
  count_where (has_expired now) db.events,
  record db {
    events = update_where (has_expired now) (λ e. record e { archived = true }) db.events;
  },
)

abbrev pub is_subscribed : String → EventType → Subscription → Bool
is_subscribed subscriber_name event_type s =
    str_eq s.subscriber_name subscriber_name && same_event_type s.event_type event_type

unfoldable pub get_subscription : String → EventType → EventDb → Option Subscription
get_subscription subscriber_name event_type db =
    find (is_subscribed subscriber_name event_type) db.subscriptions

-- The keyword arguments of `upsert_subscription`.
pub record Settings : Type 0 where
  pub subscriber_version : String
  pub handler_version : String
  pub retry_limit : ℕ
  pub timeout_seconds : ℕ
  pub enabled : Bool

abbrev pub apply_settings : Settings → Subscription → Subscription
apply_settings settings s = record s {
  subscriber_version = settings.subscriber_version;
  handler_version = settings.handler_version;
  retry_limit = settings.retry_limit;
  timeout_seconds = settings.timeout_seconds;
  enabled = settings.enabled;
}

abbrev pub new_subscription : (now new_id : ℕ) → String → EventType → Settings → Subscription
new_subscription now new_id subscriber_name event_type settings = record {
  id = new_id;
  subscriber_name = subscriber_name;
  subscriber_version = settings.subscriber_version;
  handler_version = settings.handler_version;
  event_type = event_type;
  enabled = settings.enabled;
  retry_limit = settings.retry_limit;
  timeout_seconds = settings.timeout_seconds;
  created_at = now;
}

-- `upsert_subscription`; a new row's identifier is a fresh one.
unfoldable pub upsert_subscription :
    (now new_id : ℕ) → String → EventType → Settings → EventDb → Subscription × EventDb
upsert_subscription now new_id subscriber_name event_type settings db =
    elim (get_subscription subscriber_name event_type db) [
      | some existing ↦ (
        apply_settings settings existing,
        record db {
          subscriptions =
              update_first (is_subscription existing.id) (apply_settings settings) db.subscriptions;
        },
      )
      | none ↦
          let sub = new_subscription now new_id subscriber_name event_type settings in
          (sub, record db { subscriptions = db.subscriptions ++ sub ∷ [] })
    ]

unfoldable pub list_subscriptions : Option EventType → EventDb → List Subscription
list_subscriptions event_type db =
    filter (λ s. given event_type (same_event_type s.event_type)) db.subscriptions
