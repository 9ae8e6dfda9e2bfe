-- ===== src/Events/Serializer.antt =====
-- events/event_serializer.py. A payload is a Python value; floats are left out. The texts of
-- instants (`isoformat`) and of UUIDs (`str`) are parameters.
use hire_ai.Prelude.{ℕ, String, Bool, Option, none, some}

-- The numbers of JSON, without fractions.
pub data Number : Type 0 where
  pos negsuc : ℕ → Number

mutual
  pub data Json : Type 0 where
    null : Json
    flag : Bool → Json
    number : Number → Json
    text : String → Json
    array : Items → Json
    object : Fields → Json
    instant : ℕ → Json  -- `datetime` or `date`
    uuid : ℕ → Json
    other : ℕ → Json  -- any other object

  pub data Items : Type 0 where
    no_items : Items
    item : Json → Items → Items

  pub data Fields : Type 0 where
    no_fields : Fields
    field : String → Json → Fields → Fields

module _ (isoformat uuid_str : ℕ → String) where
  -- `json.loads(json.dumps(payload, default=default_encoder))`; none for the TypeError.
  unfoldable mutual
    pub encode : Json → Option Json
    encode null = some null
    encode (flag b) = some (flag b)
    encode (number n) = some (number n)
    encode (text s) = some (text s)
    encode (array xs) = elim (encode_items xs) [ none ↦ none | some ys ↦ some (array ys) ]
    encode (object fs) = elim (encode_fields fs) [ none ↦ none | some gs ↦ some (object gs) ]
    encode (instant t) = some (text (isoformat t))
    encode (uuid u) = some (text (uuid_str u))
    encode (other n) = none

    pub encode_items : Items → Option Items
    encode_items no_items = some no_items
    encode_items (item x xs) = elim (encode x) [
      | none ↦ none
      | some y ↦ elim (encode_items xs) [ none ↦ none | some ys ↦ some (item y ys) ]
    ]

    pub encode_fields : Fields → Option Fields
    encode_fields no_fields = some no_fields
    encode_fields (field k x fs) = elim (encode x) [
      | none ↦ none
      | some y ↦ elim (encode_fields fs) [ none ↦ none | some gs ↦ some (field k y gs) ]
    ]

  -- `serialize`; an empty payload is falsy.
  unfoldable pub serialize : Fields → Option Json
  serialize no_fields = some (object no_fields)
  serialize payload = encode (object payload)
