-- ===== src/Events/Stored.antt =====
-- What the serializer stores is plain JSON, and plain JSON is stored as it is.
use mathlib.Core.Path.{subst}
use mathlib.Core.Option.{none-ne-some, some-injective}
use hire_ai.Prelude.{ℕ, String, ◌≡◌, refl, sym, ◌∙◌, ap, inl, inr, some, Option-cases}
use hire_ai.Events.Serializer.{
  Json, null, flag, number, text, array, object, instant, uuid, other, Items, no_items, item,
  Fields, no_fields, field, encode, encode_items, encode_fields, serialize,
}

-- No instant, UUID or other object is left in the value.
abbrev mutual
  pub IsPlain : Json → Type 0
  IsPlain null = Unit
  IsPlain (flag b) = Unit
  IsPlain (number n) = Unit
  IsPlain (text s) = Unit
  IsPlain (array xs) = IsPlainItems xs
  IsPlain (object fs) = IsPlainFields fs
  IsPlain (instant t) = ⊥
  IsPlain (uuid u) = ⊥
  IsPlain (other n) = ⊥

  pub IsPlainItems : Items → Type 0
  IsPlainItems no_items = Unit
  IsPlainItems (item x xs) = IsPlain x × IsPlainItems xs

  pub IsPlainFields : Fields → Type 0
  IsPlainFields no_fields = Unit
  IsPlainFields (field k x fs) = IsPlain x × IsPlainFields fs

module _ (isoformat uuid_str : ℕ → String) where
  mutual
    unfolding encode

    encode-plain : (j : Json) → IsPlain j → encode isoformat uuid_str j ≡ some j
    encode-plain null h = refl
    encode-plain (flag b) h = refl
    encode-plain (number n) h = refl
    encode-plain (text s) h = refl
    encode-plain (array xs) h = rw (encode_items-plain xs h) refl
    encode-plain (object fs) h = rw (encode_fields-plain fs h) refl
    encode-plain (instant t) h = absurd h
    encode-plain (uuid u) h = absurd h
    encode-plain (other n) h = absurd h

    encode_items-plain :
        (xs : Items) → IsPlainItems xs → encode_items isoformat uuid_str xs ≡ some xs
    encode_items-plain no_items h = refl
    encode_items-plain (item x xs) h = rw (encode-plain x h.0, encode_items-plain xs h.1) refl

    encode_fields-plain :
        (fs : Fields) → IsPlainFields fs → encode_fields isoformat uuid_str fs ≡ some fs
    encode_fields-plain no_fields h = refl
    encode_fields-plain (field k x fs) h = rw (encode-plain x h.0, encode_fields-plain fs h.1) refl

  mutual
    unfolding encode

    encode-IsPlain : (j k : Json) → encode isoformat uuid_str j ≡ some k → IsPlain k
    encode-IsPlain null k e = subst IsPlain (some-injective _ _ e) tt
    encode-IsPlain (flag b) k e = subst IsPlain (some-injective _ _ e) tt
    encode-IsPlain (number n) k e = subst IsPlain (some-injective _ _ e) tt
    encode-IsPlain (text s) k e = subst IsPlain (some-injective _ _ e) tt
    encode-IsPlain (array xs) k e = elim (Option-cases (encode_items isoformat uuid_str xs)) [
      | inl fails ↦ absurd (none-ne-some _ (rw fails at e))
      | inr (ys, e') ↦
          subst IsPlain (some-injective _ _ (rw e' at e)) (encode_items-IsPlain xs ys e')
    ]
    encode-IsPlain (object fs) k e = elim (Option-cases (encode_fields isoformat uuid_str fs)) [
      | inl fails ↦ absurd (none-ne-some _ (rw fails at e))
      | inr (gs, e') ↦
          subst IsPlain (some-injective _ _ (rw e' at e)) (encode_fields-IsPlain fs gs e')
    ]
    encode-IsPlain (instant t) k e = subst IsPlain (some-injective _ _ e) tt
    encode-IsPlain (uuid u) k e = subst IsPlain (some-injective _ _ e) tt
    encode-IsPlain (other n) k e = absurd (none-ne-some _ e)

    encode_items-IsPlain :
        (xs ys : Items) → encode_items isoformat uuid_str xs ≡ some ys → IsPlainItems ys
    encode_items-IsPlain no_items ys e = subst IsPlainItems (some-injective _ _ e) tt
    encode_items-IsPlain (item x xs) zs e = elim (Option-cases (encode isoformat uuid_str x)) [
      | inl fails ↦ absurd (none-ne-some _ (rw fails at e))
      | inr (y, one) ↦ elim (Option-cases (encode_items isoformat uuid_str xs)) [
        | inl fails ↦ absurd (none-ne-some _ (rw (one, fails) at e))
        | inr (ys, all) ↦
            subst IsPlainItems (some-injective _ _ (rw (one, all) at e))
              (encode-IsPlain x y one, encode_items-IsPlain xs ys all)
      ]
    ]

    encode_fields-IsPlain :
        (fs gs : Fields) → encode_fields isoformat uuid_str fs ≡ some gs → IsPlainFields gs
    encode_fields-IsPlain no_fields gs e = subst IsPlainFields (some-injective _ _ e) tt
    encode_fields-IsPlain (field k x fs) zs e = elim (Option-cases (encode isoformat uuid_str x)) [
      | inl fails ↦ absurd (none-ne-some _ (rw fails at e))
      | inr (y, one) ↦ elim (Option-cases (encode_fields isoformat uuid_str fs)) [
        | inl fails ↦ absurd (none-ne-some _ (rw (one, fails) at e))
        | inr (gs, all) ↦
            subst IsPlainFields (some-injective _ _ (rw (one, all) at e))
              (encode-IsPlain x y one, encode_fields-IsPlain fs gs all)
      ]
    ]

  serialize_object :
      (payload : Fields)
      → serialize isoformat uuid_str payload ≡ encode isoformat uuid_str (object payload)
  unfolding serialize encode
  serialize_object no_fields = refl
  serialize_object (field k x fs) = refl

  -- What the serializer returns is a dictionary of plain JSON values, without instants, UUIDs or
  -- other objects, and serializing it again returns it unchanged.
  pub serialize_roundtrip :
      (payload : Fields) (stored : Json)
      → serialize isoformat uuid_str payload ≡ some stored
      → (fields : Fields) × (stored ≡ object fields)
        × IsPlainFields fields
        × (serialize isoformat uuid_str fields ≡ some stored)
  unfolding encode
  serialize_roundtrip payload stored e =
      elim (Option-cases (encode_fields isoformat uuid_str payload)) [
        | inl fails ↦ absurd (none-ne-some _ (rw fails at (sym (serialize_object payload) ∙ e)))
        | inr (fields, e') ↦
            let same : object fields ≡ stored =
              some-injective _ _ (rw e' at (sym (serialize_object payload) ∙ e)) in
            let plain : IsPlainFields fields = encode_fields-IsPlain payload fields e' in
            (
              fields,
              sym same,
              plain,
              serialize_object fields ∙ rw (encode_fields-plain fields plain) (ap some same),
            )
      ]
