-- ===== src/Prelude/Sorting.antt =====
-- A stable sort by a test, and that it leaves a sorted list as it is.
use mathlib.Core.Path.{◌≡◌, refl, ap, ◌∙◌}
use mathlib.Core.Bool.{Bool, true}
use mathlib.Core.List.{List, [], ◌∷◌}
use hire_ai.Prelude.Tests.{if◌then◌else◌}
use hire_ai.Prelude.Lists.{All}

module _ {ℓ} {A : Type ℓ} (before : A → A → Bool) where
  abbrev pub insert_by : A → List A → List A
  insert_by x [] = x ∷ []
  insert_by x (y ∷ ys) = if before x y then x ∷ y ∷ ys else y ∷ insert_by x ys

  -- `ORDER BY`: the rows in order, equal ones as they stand in the table.
  abbrev pub sort_by : List A → List A
  sort_by [] = []
  sort_by (x ∷ xs) = insert_by x (sort_by xs)

  -- Each element may stand before all the later ones.
  abbrev pub IsSortedBy : List A → Type ℓ
  IsSortedBy [] = Unit
  IsSortedBy (x ∷ xs) = All (λ y. before x y ≡ true) xs × IsSortedBy xs

  insert_by-first :
      (x : A) (xs : List A) → All (λ y. before x y ≡ true) xs → insert_by x xs ≡ x ∷ xs
  insert_by-first x [] h = refl
  insert_by-first x (y ∷ ys) h = rw h.0 refl

  pub sort_by-sorted : (xs : List A) → IsSortedBy xs → sort_by xs ≡ xs
  sort_by-sorted [] h = refl
  sort_by-sorted (x ∷ xs) h = ap (insert_by x) (sort_by-sorted xs h.1) ∙ insert_by-first x xs h.0
