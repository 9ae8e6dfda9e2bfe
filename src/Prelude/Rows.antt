-- ===== src/Prelude/Rows.antt =====
-- Tables: the first row that passes a test, found and updated (an UPDATE by a primary key).
use mathlib.Core.Path.{◌≡◌, refl, ap, ◌∙◌, subst}
use mathlib.Core.Logic.{inl, inr}
use mathlib.Core.Bool.{Bool, true, false}
use mathlib.Core.Option.{some, some-injective, none-ne-some}
use mathlib.Core.List.{List, [], ◌∷◌}
use hire_ai.Prelude.Tests.{if◌then◌else◌, Bool-cases}
use hire_ai.Prelude.Lists.{find, All, update_where}

module _ {ℓ} {A : Type ℓ} where
  abbrev pub update_first : (A → Bool) → (A → A) → List A → List A
  update_first p f [] = []
  update_first p f (x ∷ xs) = if p x then f x ∷ xs else x ∷ update_first p f xs

  pub find-update_first :
      (p : A → Bool) (f : A → A)
      → ((x : A) → p x ≡ true → p (f x) ≡ true)
      → (xs : List A) (x : A) → find p xs ≡ some x
      → find p (update_first p f xs) ≡ some (f x)
  find-update_first p f keeps [] x h = absurd (none-ne-some _ h)
  find-update_first p f keeps (y ∷ ys) x h = elim (Bool-cases (p y)) [
    | inl hit ↦ rw hit (
        ap (λ b. if b then some (f y) else find p ys) (keeps y hit)
        ∙ ap (λ z. some (f z)) (some-injective _ _ (rw hit at h)))
    | inr miss ↦ rw (miss, miss) (find-update_first p f keeps ys x (rw miss at h))
  ]

  pub find-All {κ} :
      (P : A → Type κ) (p : A → Bool) (xs : List A) (x : A)
      → All P xs
      → find p xs ≡ some x
      → P x × (p x ≡ true)
  find-All P p [] x h e = absurd (none-ne-some _ e)
  find-All P p (y ∷ ys) x h e = elim (Bool-cases (p y)) [
    | inl hit ↦
        let one : y ≡ x = some-injective _ _ (rw hit at e) in
        subst (λ z. P z × (p z ≡ true)) one (h.0, hit)
    | inr miss ↦ find-All P p ys x h.1 (rw miss at e)
  ]

  pub All-update_first {κ} :
      (P : A → Type κ) (p : A → Bool) (f : A → A)
      → ((x : A) → P x → P (f x))
      → (xs : List A) → All P xs
      → All P (update_first p f xs)
  All-update_first P p f keeps [] h = tt
  All-update_first P p f keeps (x ∷ xs) h = elim (Bool-cases (p x)) [
    | inl hit ↦ rw hit (keeps x h.0, h.1)
    | inr miss ↦ rw miss (h.0, All-update_first P p f keeps xs h.1)
  ]

  -- Rows that the update cannot touch are found as before.
  pub find-update_apart :
      (p q : A → Bool) (f : A → A)
      → ((x : A) → q x ≡ true → (p x ≡ false) × (p (f x) ≡ false))
      → (xs : List A) → find p (update_first q f xs) ≡ find p xs
  find-update_apart p q f apart [] = refl
  find-update_apart p q f apart (x ∷ xs) = elim (Bool-cases (q x)) [
    | inl hit ↦
        rw (hit, (apart x hit).0) (ap (λ b. if b then some (f x) else find p xs) (apart x hit).1)
    | inr miss ↦ rw miss (ap (λ o. if p x then some x else o) (find-update_apart p q f apart xs))
  ]

  -- The row found is not among those that the update replaces.
  pub find-update_where :
      (p q : A → Bool) (f : A → A)
      → ((x : A) → p (f x) ≡ p x)
      → (xs : List A) (x : A) → find p xs ≡ some x
      → q x ≡ false
      → find p (update_where q f xs) ≡ some x
  find-update_where p q f keeps [] x h away = absurd (none-ne-some _ h)
  find-update_where p q f keeps (y ∷ ys) x h away = elim (Bool-cases (p y)) [
    | inl hit ↦
        let one : y ≡ x = some-injective _ _ (rw hit at h) in
        rw (ap q one ∙ away, hit) (ap some one)
    | inr miss ↦ elim (Bool-cases (q y)) [
      | inl old ↦ rw old (
          ap (λ b. if b then some (f y) else find p (update_where q f ys)) (keeps y ∙ miss)
          ∙ find-update_where p q f keeps ys x (rw miss at h) away)
      | inr new ↦ rw (new, miss) (find-update_where p q f keeps ys x (rw miss at h) away)
    ]
  ]
