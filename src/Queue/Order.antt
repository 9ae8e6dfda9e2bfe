-- ===== src/Queue/Order.antt =====
-- Every queue stays sorted, and `dequeue` takes the first visible item by that order.
use mathlib.Core.Path.{subst}
use mathlib.Core.Bool.{false≢true}
use mathlib.Core.Option.{some-injective}
use hire_ai.Prelude.{
  ◌≡◌, sym, ap, ◌∙◌, inl, inr, Bool, true, false, some, List, [], ◌∷◌, ◌++◌, All, All-append,
  All-weaken, arith, Bool-cases, Option-cases,
}
use hire_ai.Queue.{QueueType, QueueItem, sorts_before, insert_item, sort_items, take_first}

abbrev pub Precedes : QueueItem → QueueItem → Type 0
Precedes x y = sorts_before x y ≡ true

-- Each item precedes all the later ones.
abbrev pub IsOrdered : List QueueItem → Type 0
IsOrdered [] = Unit
IsOrdered (x ∷ xs) = All (Precedes x) xs × IsOrdered xs

abbrev pub AllOrdered : List (QueueType × List QueueItem) → Type 0
AllOrdered [] = Unit
AllOrdered ((n, items) ∷ rest) = IsOrdered items × AllOrdered rest

Precedes-total : (x y : QueueItem) → sorts_before x y ≡ false → Precedes y x
unfolding sorts_before
Precedes-total x y h = ground arith

Precedes-trans : (x y z : QueueItem) → Precedes x y → Precedes y z → Precedes x z
unfolding sorts_before
Precedes-trans x y z p q = ground arith

All-Precedes :
    (x y : QueueItem) (ys : List QueueItem)
    → Precedes x y
    → All (Precedes y) ys
    → All (Precedes x) ys
All-Precedes x y [] p h = tt
All-Precedes x y (z ∷ ys) p h = (Precedes-trans x y z p h.0, All-Precedes x y ys p h.1)

All-insert_item :
    (P : QueueItem → Type 0) (x : QueueItem) (ys : List QueueItem)
    → P x
    → All P ys
    → All P (insert_item x ys)
unfolding insert_item
All-insert_item P x [] p h = (p, tt)
All-insert_item P x (y ∷ ys) p h = elim (Bool-cases (sorts_before x y)) [
  | inl first ↦ rw first (p, h)
  | inr later ↦ rw later (h.0, All-insert_item P x ys p h.1)
]

insert_item-IsOrdered :
    (x : QueueItem) (ys : List QueueItem) → IsOrdered ys → IsOrdered (insert_item x ys)
unfolding insert_item
insert_item-IsOrdered x [] h = (tt, tt)
insert_item-IsOrdered x (y ∷ ys) h = elim (Bool-cases (sorts_before x y)) [
  | inl first ↦ rw first ((first, All-Precedes x y ys first h.0), h)
  | inr later ↦ rw later (
    All-insert_item (Precedes y) x ys (Precedes-total x y later) h.0,
    insert_item-IsOrdered x ys h.1,
  )
]

pub sort_items-IsOrdered : (xs : List QueueItem) → IsOrdered (sort_items xs)
unfolding sort_items
sort_items-IsOrdered [] = tt
sort_items-IsOrdered (x ∷ xs) = insert_item-IsOrdered x (sort_items xs) (sort_items-IsOrdered xs)

-- What `take_first` finds: an item between a part that fails the test and the rest.
pub record Split (p : QueueItem → Bool) (xs : List QueueItem) (x : QueueItem)
    (rest : List QueueItem) : Type 0 where
  pub before : List QueueItem
  pub after : List QueueItem
  pub whole : xs ≡ before ++ x ∷ after
  pub left : rest ≡ before ++ after
  pub skipped : All (λ y. p y ≡ false) before
  pub found : p x ≡ true

module _ (p : QueueItem → Bool) where
  pub take_first-Split :
      (xs : List QueueItem) (x : QueueItem) (rest : List QueueItem)
      → take_first p xs ≡ some (x, rest)
      → Split p xs x rest
  unfolding take_first
  take_first-Split [] x rest h = cc
  take_first-Split (y ∷ ys) x rest h = elim (Bool-cases (p y)) [
    | inl seen ↦
        let e = some-injective _ _ (rw seen at h) in
        let same : y ≡ x = ap (λ (r : QueueItem × List QueueItem). r.0) e in
        record {
          before = [];
          after = ys;
          whole = ap (λ z. z ∷ ys) same;
          left = sym (ap (λ (r : QueueItem × List QueueItem). r.1) e);
          skipped = tt;
          found = ap p (sym same) ∙ seen;
        }
    | inr hidden ↦ elim (Option-cases (take_first p ys)) [
      | inl e ↦ cc (rw (hidden, e) at h)
      | inr ((z, zs), e) ↦
          let r = some-injective _ _ (rw (hidden, e) at h) in
          let s =
            take_first-Split ys x zs
              (e ∙ ap (λ w. some (w, zs)) (ap (λ (r : QueueItem × List QueueItem). r.0) r)) in
          record {
            before = y ∷ s.before;
            after = s.after;
            whole = ap (λ w. y ∷ w) s.whole;
            left = sym (ap (λ (r : QueueItem × List QueueItem). r.1) r) ∙ ap (λ w. y ∷ w) s.left;
            skipped = (hidden, s.skipped);
            found = s.found;
          }
    ]
  ]

IsOrdered-skip :
    (before : List QueueItem) (x : QueueItem) (after : List QueueItem)
    → IsOrdered (before ++ x ∷ after)
    → IsOrdered (before ++ after) × All (Precedes x) after
IsOrdered-skip [] x after h = (h.1, h.0)
IsOrdered-skip (y ∷ before) x after h =
    let ih = IsOrdered-skip before x after h.1 in
    ((All-skip (Precedes y) before x after h.0, ih.0), ih.1)
  where
    All-skip :
        (P : QueueItem → Type 0) (before : List QueueItem) (x : QueueItem) (after : List QueueItem)
        → All P (before ++ x ∷ after)
        → All P (before ++ after)
    All-skip P [] x after h = h.1
    All-skip P (z ∷ before) x after h = (h.0, All-skip P before x after h.1)

pub take_first-IsOrdered :
    (p : QueueItem → Bool) (xs : List QueueItem) (x : QueueItem) (rest : List QueueItem)
    → take_first p xs ≡ some (x, rest)
    → IsOrdered xs
    → IsOrdered rest
take_first-IsOrdered p xs x rest h ordered =
    let s = take_first-Split p xs x rest h in
    subst IsOrdered (sym s.left)
      (IsOrdered-skip s.before x s.after (subst IsOrdered s.whole ordered)).0

-- The item taken precedes every other item that passes the test.
pub take_first_best :
    (p : QueueItem → Bool) (xs : List QueueItem) (x : QueueItem) (rest : List QueueItem)
    → take_first p xs ≡ some (x, rest)
    → IsOrdered xs
    → (p x ≡ true) × All (λ y. p y ≡ true → Precedes x y) rest
take_first_best p xs x rest h ordered =
    let s = take_first-Split p xs x rest h in
    let later = (IsOrdered-skip s.before x s.after (subst IsOrdered s.whole ordered)).1 in
    (
      s.found,
      subst (All (λ y. p y ≡ true → Precedes x y)) (sym s.left) (
          All-append _ s.before s.after
            (All-weaken (λ y. p y ≡ false) _ s.before
              (λ y no. λ (is : p y ≡ true). absurd (false≢true (sym no ∙ is))) s.skipped)
            (All-weaken (Precedes x) _ s.after (λ y pre. λ (is : p y ≡ true). pre) later)),
    )
