-- ===== src/Prelude/Pairs.antt =====
-- Relations between any two elements of a list, the earlier one first.
use mathlib.Core.Path.{◌≡◌}
use mathlib.Core.Logic.{inl, inr}
use mathlib.Core.Bool.{Bool, true}
use mathlib.Core.List.{List, [], ◌∷◌, ◌++◌}
use hire_ai.Prelude.Tests.{Bool-cases}
use hire_ai.Prelude.Lists.{All, All-append}
use hire_ai.Prelude.Rows.{update_first}

abbrev pub Pairwise {ℓ κ} : {A : Type ℓ} → (A → A → Type κ) → List A → Type κ
Pairwise R [] = Unit
Pairwise R (x ∷ xs) = All (R x) xs × Pairwise R xs

module _ {ℓ κ} {A : Type ℓ} (R : A → A → Type κ) where
  pub Pairwise-append :
      (xs : List A) (x : A) → Pairwise R xs → All (λ y. R y x) xs → Pairwise R (xs ++ x ∷ [])
  Pairwise-append [] x h k = (tt, tt)
  Pairwise-append (y ∷ xs) x h k =
      (All-append (R y) xs (x ∷ []) h.0 (k.0, tt), Pairwise-append xs x h.1 k.1)

  module _ {μ} (Q : A → Type μ) (p : A → Bool) (f : A → A) where
    -- One row is rewritten, and keeps its relation to all the others.
    All-related :
        (x : A) (ys : List A)
        → ((y : A) → p y ≡ true → R x y → R x (f y))
        → All (R x) ys
        → All (R x) (update_first p f ys)
    All-related x [] right h = tt
    All-related x (y ∷ ys) right h = elim (Bool-cases (p y)) [
      | inl hit ↦ rw hit (right y hit h.0, h.1)
      | inr miss ↦ rw miss (h.0, All-related x ys right h.1)
    ]

    All-rewritten :
        (x : A) (ys : List A)
        → ((y : A) → Q y → R x y → R (f x) y)
        → All Q ys
        → All (R x) ys
        → All (R (f x)) ys
    All-rewritten x [] left q h = tt
    All-rewritten x (y ∷ ys) left q h = (left y q.0 h.0, All-rewritten x ys left q.1 h.1)

    pub Pairwise-update_first :
        ((x y : A) → p x ≡ true → Q y → R x y → R (f x) y)
        → ((x y : A) → p y ≡ true → Q x → R x y → R x (f y))
        → (xs : List A) → All Q xs
        → Pairwise R xs
        → Pairwise R (update_first p f xs)
    Pairwise-update_first left right [] q h = tt
    Pairwise-update_first left right (x ∷ xs) q h = elim (Bool-cases (p x)) [
      | inl hit ↦ rw hit (All-rewritten x xs (λ y. left x y hit) q.1 h.0, h.1)
      | inr miss ↦ rw miss (
        All-related x xs (λ y here. right x y here q.0) h.0,
        Pairwise-update_first left right xs q.1 h.1,
      )
    ]
