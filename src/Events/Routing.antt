-- ===== src/Events/Routing.antt =====
-- The router makes one delivery for each enabled subscription of the event's type.
use mathlib.Core.Path.{subst}
use mathlib.Core.Option.{none-ne-some}
use hire_ai.Prelude.{
  ℕ, ◌+◌, ◌≤◌, ◌≡◌, refl, sym, ap, ◌∙◌, inl, inr, Bool, true, none, some, List, [], ◌∷◌, ◌++◌, find,
  filter, count_where, All, All-weaken, ◌==◌, arith, Bool-cases, Option-cases,
}
use hire_ai.Events.{AiEvent, Subscription, Delivery, EventDb}
use hire_ai.Events.Bus.{
  is_active, get_active_subscriptions, is_pair, get_existing_delivery, new_delivery, route_all,
  route,
}

module _ {ℓ} {A : Type ℓ} (p : A → Bool) where
  find-append : (xs ys : List A) (x : A) → find p xs ≡ some x → find p (xs ++ ys) ≡ some x
  find-append [] ys x h = absurd (none-ne-some _ h)
  find-append (y ∷ xs) ys x h = elim (Bool-cases (p y)) [
    | inl hit ↦ rw hit (rw hit at h)
    | inr miss ↦ rw miss (find-append xs ys x (rw miss at h))
  ]

  find-append_new :
      (xs : List A) (x : A) → find p xs ≡ none → p x ≡ true → find p (xs ++ x ∷ []) ≡ some x
  find-append_new [] x h hit = rw hit refl
  find-append_new (y ∷ xs) x h hit = elim (Bool-cases (p y)) [
    | inl first ↦ absurd (none-ne-some _ (sym (rw first at h)))
    | inr miss ↦ rw miss (find-append_new xs x (rw miss at h) hit)
  ]

  count_where-append :
      (xs ys : List A) → count_where p (xs ++ ys) ≡ count_where p xs + count_where p ys
  count_where-append [] ys = omega arith
  count_where-append (x ∷ xs) ys = ground (arith, count_where-append xs ys)

  count_where-none : (xs : List A) → find p xs ≡ none → count_where p xs ≡ 0
  count_where-none [] h = refl
  count_where-none (x ∷ xs) h = elim (Bool-cases (p x)) [
    | inl hit ↦ absurd (none-ne-some _ (sym (rw hit at h)))
    | inr miss ↦ rw miss (count_where-none xs (rw miss at h))
  ]

  count_where-some : (xs : List A) (x : A) → find p xs ≡ some x → 1 ≤ count_where p xs
  count_where-some [] x h = absurd (none-ne-some _ h)
  count_where-some (y ∷ xs) x h = elim (Bool-cases (p y)) [
    | inl hit ↦ rw hit (omega arith)
    | inr miss ↦ rw miss (count_where-some xs x (rw miss at h))
  ]

same_number : (a : ℕ) → (a == a) ≡ true
same_number a = ground arith

module _ (fresh : ℕ → ℕ) (event : AiEvent) where
  pub is_pair-new :
      (sub_id : ℕ) → is_pair event.id sub_id (new_delivery (fresh sub_id) event sub_id) ≡ true
  unfolding new_delivery
  is_pair-new sub_id = rw (same_number event.id, same_number sub_id) refl

  module _ (sub : Subscription) (subs : List Subscription) (rows : List Delivery) where
    route_all_old :
        (d : Delivery)
        → find (is_pair event.id sub.id) rows ≡ some d
        → route_all fresh event (sub ∷ subs) rows
          ≡ (d ∷ (route_all fresh event subs rows).0, (route_all fresh event subs rows).1)
    unfolding route_all get_existing_delivery
    route_all_old d e = rw (e, route_all, get_existing_delivery) refl

    abbrev with_new : List Delivery
    with_new = rows ++ new_delivery (fresh sub.id) event sub.id ∷ []

    route_all_new :
        find (is_pair event.id sub.id) rows ≡ none
        → route_all fresh event (sub ∷ subs) rows ≡ (
          new_delivery (fresh sub.id) event sub.id ∷ (route_all fresh event subs with_new).0,
          (route_all fresh event subs with_new).1,
        )
    unfolding route_all get_existing_delivery
    route_all_new e = rw (e, route_all, get_existing_delivery) refl

  -- A row that is found stays found.
  pub find-route_all :
      (p : Delivery → Bool) (subs : List Subscription) (rows : List Delivery) (d : Delivery)
      → find p rows ≡ some d
      → find p (route_all fresh event subs rows).1 ≡ some d
  unfolding route_all
  find-route_all p [] rows d h = h
  find-route_all p (sub ∷ subs) rows d h =
      elim (Option-cases (find (is_pair event.id sub.id) rows)) [
        | inl new ↦
            rw (route_all_new sub subs rows new)
              (find-route_all p subs _ d (find-append p rows _ d h))
        | inr (old, e) ↦ rw (route_all_old sub subs rows old e) (find-route_all p subs rows d h)
      ]

  -- The subscription has a delivery of the event among the rows.
  abbrev HasDelivery : List Delivery → Subscription → Type 0
  HasDelivery rows s = (d : Delivery) × (find (is_pair event.id s.id) rows ≡ some d)

  route_all-found :
      (subs : List Subscription) (rows : List Delivery)
      → All (HasDelivery (route_all fresh event subs rows).1) subs
  route_all-found [] rows = tt
  route_all-found (sub ∷ subs) rows = elim (Option-cases (find (is_pair event.id sub.id) rows)) [
    | inl new ↦ subst family (sym (route_all_new sub subs rows new)) (
      (
        new_delivery (fresh sub.id) event sub.id,
        find-route_all (is_pair event.id sub.id) subs _ _
            (find-append_new (is_pair event.id sub.id) rows _ new (is_pair-new sub.id)),
      ),
      route_all-found subs _,
    )
    | inr (old, e) ↦
        subst family (sym (route_all_old sub subs rows old e)) (
          (old, find-route_all (is_pair event.id sub.id) subs rows old e),
          route_all-found subs rows,
        )
  ]
    where
      family : List Delivery × List Delivery → Type 0
      family r = All (HasDelivery r.1) (sub ∷ subs)

  -- Appending a subscription's first delivery.
  one_more :
      (sub_id new_for : ℕ) (rows : List Delivery)
      → count_where (is_pair event.id sub_id) rows ≤ 1
      → find (is_pair event.id new_for) rows ≡ none
      → count_where
          (is_pair event.id sub_id)
          (rows ++ new_delivery (fresh new_for) event new_for ∷ [])
        ≤ 1
  unfolding new_delivery
  one_more sub_id new_for rows h new =
      rw
        (count_where-append (is_pair event.id sub_id) rows
          (new_delivery (fresh new_for) event new_for ∷ []))
        (elim (Bool-cases (new_for == sub_id)) [
          | inl same ↦
              let eq : new_for ≡ sub_id = ground (arith, same) in
              let nil : count_where (is_pair event.id sub_id) rows ≡ 0 =
                count_where-none (is_pair event.id sub_id) rows
                  (ap (λ n. find (is_pair event.id n) rows) (sym eq) ∙ new) in
              rw (same, same_number event.id) (omega (arith, nil))
          | inr differs ↦ rw (differs, same_number event.id) (omega (arith, h))
        ])

  -- At most one delivery for each subscription, before and so afterwards.
  count-route_all :
      (sub_id : ℕ) (subs : List Subscription) (rows : List Delivery)
      → count_where (is_pair event.id sub_id) rows ≤ 1
      → count_where (is_pair event.id sub_id) (route_all fresh event subs rows).1 ≤ 1
  unfolding route_all
  count-route_all sub_id [] rows h = h
  count-route_all sub_id (sub ∷ subs) rows h =
      elim (Option-cases (find (is_pair event.id sub.id) rows)) [
        | inl new ↦
            rw (route_all_new sub subs rows new)
              (count-route_all sub_id subs _ (one_more sub_id sub.id rows h new))
        | inr (old, e) ↦ rw (route_all_old sub subs rows old e) (count-route_all sub_id subs rows h)
      ]

-- The second routing of the rows that the first one left.
route_all_again :
    (fresh again : ℕ → ℕ) (event : AiEvent) (subs : List Subscription) (rows rows' : List Delivery)
    → ((p : Delivery → Bool) (d : Delivery)
        → find p (route_all fresh event subs rows).1 ≡ some d
        → find p rows' ≡ some d)
    → route_all again event subs rows' ≡ ((route_all fresh event subs rows).0, rows')
unfolding route_all
route_all_again fresh again event [] rows rows' kept = refl
route_all_again fresh again event (sub ∷ subs) rows rows' kept =
    elim (Option-cases (find (is_pair event.id sub.id) rows)) [
      | inl new ↦
          let d : Delivery = new_delivery (fresh sub.id) event sub.id in
          let step = route_all_new fresh event sub subs rows new in
          let there : find (is_pair event.id sub.id) rows' ≡ some d =
            kept (is_pair event.id sub.id) d (
              rw step (
                find-route_all fresh event (is_pair event.id sub.id) subs _ d (
                  find-append_new (is_pair event.id sub.id) rows d new
                    (is_pair-new fresh event sub.id)))) in
          rw (step, route_all_old again event sub subs rows' d there)
            (ap (λ (r : List Delivery × List Delivery). (d ∷ r.0, r.1))
              (route_all_again fresh again event subs _ rows' (λ p x e. kept p x (rw step e))))
      | inr (d, e) ↦
          let step = route_all_old fresh event sub subs rows d e in
          let there : find (is_pair event.id sub.id) rows' ≡ some d =
            kept (is_pair event.id sub.id) d
              (rw step (find-route_all fresh event (is_pair event.id sub.id) subs rows d e)) in
          rw (step, route_all_old again event sub subs rows' d there)
            (ap (λ (r : List Delivery × List Delivery). (d ∷ r.0, r.1))
              (route_all_again fresh again event subs rows rows' (λ p x e. kept p x (rw step e))))
    ]

-- Routing the same event a second time returns the same deliveries and changes nothing, whatever
-- identifiers it would give to new ones.
pub route_idem :
    (fresh again : ℕ → ℕ) (event : AiEvent) (db : EventDb)
    → route again event (route fresh event db).1 ≡ route fresh event db
unfolding route get_active_subscriptions
route_idem fresh again event db =
    ap (λ (r : List Delivery × List Delivery). (r.0, record db { deliveries = r.1 }))
      (route_all_again fresh again event (filter (is_active event.event_type) db.subscriptions)
        db.deliveries _ (λ p d e. e))

-- If no subscription had more than one delivery of the event, then routing it leaves exactly one
-- delivery for each enabled subscription of its type.
pub route_exactly_one :
    (fresh : ℕ → ℕ) (event : AiEvent) (db : EventDb)
    → ((sub_id : ℕ) → count_where (is_pair event.id sub_id) db.deliveries ≤ 1)
    → All
        (λ s. count_where (is_pair event.id s.id) (route fresh event db).1.deliveries ≡ 1)
        (get_active_subscriptions event.event_type db)
unfolding route
route_exactly_one fresh event db most =
    All-weaken _ _ subs
      (λ s found. omega (
        arith,
        count_where-some (is_pair event.id s.id) _ found.0 found.1,
        count-route_all fresh event s.id subs db.deliveries (most s.id),
      ))
      (route_all-found fresh event subs db.deliveries)
  where
    subs : List Subscription
    subs = get_active_subscriptions event.event_type db
