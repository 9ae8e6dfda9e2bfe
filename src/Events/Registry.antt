-- ===== src/Events/Registry.antt =====
-- events/event_registry.py: the dictionary of handlers. A handler is what its call comes to.
use hire_ai.Prelude.{
  ℕ, String, Bool, true, false, Option, none, some, List, [], ◌∷◌, str_eq, if◌then◌else◌,
}
use hire_ai.Events.{AiEvent}

-- How a handler's call ends, under `asyncio.wait_for`. It works on the dispatcher's session, and where
-- its statements fail in the database that session refuses all later ones until it is rolled back.
pub data Outcome : Type 0 where
  handled : Outcome
  timed_out : Outcome
  raised : String → Outcome
  session_lost : Outcome

abbrev pub is_lost : Outcome → Bool
is_lost session_lost = true
is_lost _ = false

-- A subscriber's function: what it does for an event at an attempt.
abbrev pub Handler : Type 0
Handler = AiEvent → ℕ → Outcome

pub record HandlerMeta : Type 0 where
  pub handler : Handler
  pub subscriber_version : String
  pub handler_version : String
  pub supports_idempotency : Bool
  pub timeout_seconds : ℕ

-- `_registry`
abbrev pub Handlers : Type 0
Handlers = List (String × HandlerMeta)

-- `register`: an assignment to a key of a dictionary.
unfoldable pub register : String → HandlerMeta → Handlers → Handlers
register subscriber_name meta [] = (subscriber_name, meta) ∷ []
register subscriber_name meta ((name, m) ∷ rest) =
    if str_eq name subscriber_name
    then (name, meta) ∷ rest
    else (name, m) ∷ register subscriber_name meta rest

unfoldable pub get_metadata : String → Handlers → Option HandlerMeta
get_metadata subscriber_name [] = none
get_metadata subscriber_name ((name, m) ∷ rest) =
    if str_eq name subscriber_name then some m else get_metadata subscriber_name rest

unfoldable pub get_handler : String → Handlers → Option Handler
get_handler subscriber_name registry = elim (get_metadata subscriber_name registry) [
  | none ↦ none
  | some m ↦ some m.handler
]
