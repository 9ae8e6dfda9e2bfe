-- ===== src/Leads/Contact.antt =====
-- `_normalize_phone` and `_normalize_website` of services/lead_service.py, and that normalizing a
-- normalized telephone number changes nothing. `isdigit` is Python's.
use mathlib.Core.Path.{subst}
use mathlib.Core.Bool.{false≢true}
use mathlib.Core.Option.{none-ne-some, some-injective}
use hire_ai.Prelude.{
  ℕ, ◌≡◌, refl, sym, ap, ◌∙◌, inl, inr, ◌⊎◌, Bool, true, false, not, ◌&&◌, ◌||◌, Option, none, some,
  [], ◌∷◌, ◌++◌, filter, All, ◌==◌, if◌then◌else◌, Bool-cases,
}
use hire_ai.Leads.{Text}

abbrev pub plus : ℕ
plus = 43

abbrev pub without_plus : Text → Text
without_plus cs = filter (λ c. not (c == plus)) cs

-- The number after its other characters were dropped.
unfoldable pub place_plus : Text → Text
place_plus [] = []
place_plus (c ∷ cs) = if c == plus then plus ∷ without_plus cs else without_plus (c ∷ cs)

-- `_normalize_phone`
unfoldable pub normalize_phone : (isdigit : ℕ → Bool) → Option Text → Option Text
normalize_phone isdigit none = none
normalize_phone isdigit (some []) = none
normalize_phone isdigit (some (c ∷ cs)) =
    some (place_plus (filter (λ x. isdigit x || (x == plus)) (c ∷ cs)))

abbrev pub starts_with : Text → Text → Bool
starts_with [] cs = true
starts_with (p ∷ ps) [] = false
starts_with (p ∷ ps) (c ∷ cs) = (p == c) && starts_with ps cs

-- "http://" and "https://"
abbrev pub http : Text
http = 104 ∷ 116 ∷ 116 ∷ 112 ∷ 58 ∷ 47 ∷ 47 ∷ []

abbrev pub https : Text
https = 104 ∷ 116 ∷ 116 ∷ 112 ∷ 115 ∷ 58 ∷ 47 ∷ 47 ∷ []

-- `_normalize_website`
unfoldable pub normalize_website : Option Text → Option Text
normalize_website none = none
normalize_website (some []) = none
normalize_website (some (c ∷ cs)) =
    if starts_with http (c ∷ cs) || starts_with https (c ∷ cs)
    then some (c ∷ cs)
    else some (https ++ c ∷ cs)

module _ (isdigit : ℕ → Bool) where
  abbrev is_kept : ℕ → Bool
  is_kept x = isdigit x || (x == plus)

  -- Only digits, after the first character.
  abbrev AreDigits : Text → Type 0
  AreDigits cs = All (λ c. (isdigit c ≡ true) × ((c == plus) ≡ false)) cs

  abbrev AreKept : Text → Type 0
  AreKept cs = All (λ c. is_kept c ≡ true) cs

  filter-AreKept : (cs : Text) → AreKept (filter is_kept cs)
  filter-AreKept [] = tt
  filter-AreKept (c ∷ cs) = elim (Bool-cases (is_kept c)) [
    | inl keep ↦ rw keep (keep, filter-AreKept cs)
    | inr drop ↦ rw drop (filter-AreKept cs)
  ]

  a_digit : (c : ℕ) → is_kept c ≡ true → (c == plus) ≡ false → isdigit c ≡ true
  a_digit c h plain = elim (Bool-cases (isdigit c)) [
    | inl digit ↦ digit
    | inr neither ↦ absurd (false≢true (sym (ap (λ b. b || (c == plus)) neither ∙ plain) ∙ h))
  ]

  without_plus-AreDigits : (cs : Text) → AreKept cs → AreDigits (without_plus cs)
  without_plus-AreDigits [] h = tt
  without_plus-AreDigits (c ∷ cs) h = elim (Bool-cases (c == plus)) [
    | inl sign ↦ rw sign (without_plus-AreDigits cs h.1)
    | inr plain ↦ rw plain ((a_digit c h.0 plain, plain), without_plus-AreDigits cs h.1)
  ]

  kept_digits : (cs : Text) → AreDigits cs → filter is_kept cs ≡ cs
  kept_digits [] h = refl
  kept_digits (c ∷ cs) h = rw h.0.0 (ap (λ r. c ∷ r) (kept_digits cs h.1))

  unsigned_digits : (cs : Text) → AreDigits cs → without_plus cs ≡ cs
  unsigned_digits [] h = refl
  unsigned_digits (c ∷ cs) h = rw h.0.1 (ap (λ r. c ∷ r) (unsigned_digits cs h.1))

  -- A sign and digits, or digits.
  abbrev IsNumber : Text → Type 0
  IsNumber cs = AreDigits cs ⊎ ((ds : Text) × (cs ≡ plus ∷ ds) × AreDigits ds)

  place_plus-IsNumber : (cs : Text) → AreKept cs → IsNumber (place_plus cs)
  unfolding place_plus
  place_plus-IsNumber [] h = inl tt
  place_plus-IsNumber (c ∷ cs) h = elim (Bool-cases (c == plus)) [
    | inl sign ↦ rw (sign, place_plus) (inr (without_plus cs, refl, without_plus-AreDigits cs h.1))
    | inr plain ↦
        rw (plain, place_plus) (inl ((a_digit c h.0 plain, plain), without_plus-AreDigits cs h.1))
  ]

  sign_kept : is_kept plus ≡ true
  sign_kept = or_true (isdigit plus)
    where
      or_true : (b : Bool) → (b || true) ≡ true
      or_true true = refl
      or_true false = refl

  place_number : (cs : Text) → IsNumber cs → place_plus (filter is_kept cs) ≡ cs
  unfolding place_plus
  place_number [] h = refl
  place_number (c ∷ cs) (inl digits) =
      ap place_plus (kept_digits (c ∷ cs) digits)
      ∙ rw (digits.0.1, place_plus) (ap (λ r. c ∷ r) (unsigned_digits cs digits.1))
  place_number (c ∷ cs) (inr (ds, e, digits)) =
      ap (λ x. place_plus (filter is_kept x)) e
      ∙ rw sign_kept (ap (λ x. plus ∷ without_plus x) (kept_digits ds digits))
      ∙ ap (λ x. plus ∷ x) (unsigned_digits ds digits)
      ∙ sym e

  -- Normalizing a telephone number that came out of the normalization, and is not empty, changes
  -- nothing, whatever characters count as digits.
  normalize_phone_idem :
      (phone : Option Text) (c : ℕ) (cs : Text)
      → normalize_phone isdigit phone ≡ some (c ∷ cs)
      → normalize_phone isdigit (some (c ∷ cs)) ≡ some (c ∷ cs)
  unfolding normalize_phone
  normalize_phone_idem none c cs e = absurd (none-ne-some _ e)
  normalize_phone_idem (some []) c cs e = absurd (none-ne-some _ e)
  normalize_phone_idem (some (d ∷ ds)) c cs e = ap some (
      place_number (c ∷ cs) (
        subst IsNumber (some-injective _ _ e)
          (place_plus-IsNumber (filter is_kept (d ∷ ds)) (filter-AreKept (d ∷ ds)))))
