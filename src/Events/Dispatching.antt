-- ===== src/Events/Dispatching.antt =====
-- A dispatch settles each due delivery as if it were alone.
use mathlib.Core.List.{append_assoc}
use hire_ai.Prelude.{
  ℕ, ◌+◌, ◌≡◌, refl, sym, ap, ◌∙◌, inl, inr, true, false, ◌&&◌, none, some, List, [], ◌∷◌, ◌++◌,
  map, find, filter, update_first, Bool, any, All, All-append, ◌==◌, is_some, if◌then◌else◌, arith,
  Bool-cases, Option-cases,
}
use hire_ai.Events.{
  is_delivered, AiEvent, Subscription, Delivery, EventDb, is_subscription, is_delivery,
}
use hire_ai.Events.Registry.{Outcome, is_lost, get_handler}
use hire_ai.Events.Bus.{
  Dispatcher, is_leased, leased_row, failed_row, outcome_row, process_delivery, process_all, is_due,
  dispatch,
}

-- Primary keys.
abbrev pub IsDistinct : List Delivery → Type 0
IsDistinct [] = Unit
IsDistinct (d ∷ ds) = All (λ x. (d.id == x.id) ≡ false) ds × IsDistinct ds

module _ (env : Dispatcher) (event : AiEvent) (subs : List Subscription) where
  -- The specification: one delivery taken up by itself, with its own subscription and handler.
  abbrev pub settle : Delivery → Delivery
  settle d = elim (find (is_subscription d.subscriber_id) subs) [
    | none ↦ d
    | some sub ↦
        if (is_some d.processed_event_key && is_delivered d.status)
        then d
        else if is_leased (env.taken_at d.id) d
        then d
        else elim (get_handler sub.subscriber_name env.registry) [
          | none ↦ leased_row env.worker_id (env.taken_at d.id) d
          | some handler ↦
              outcome_row env (env.recorded_at d.id) sub (d.attempt + 1)
                (handler event (d.attempt + 1)) (leased_row env.worker_id (env.taken_at d.id) d)
        ]
  ]

  -- Whether its handler is called and loses the session.
  abbrev pub loses_session : Delivery → Bool
  loses_session d = elim (find (is_subscription d.subscriber_id) subs) [
    | none ↦ false
    | some sub ↦
        if (is_some d.processed_event_key && is_delivered d.status)
        then false
        else if is_leased (env.taken_at d.id) d
        then false
        else elim (get_handler sub.subscriber_name env.registry) [
          | none ↦ false
          | some handler ↦ is_lost (handler event (d.attempt + 1))
        ]
  ]

  abbrev pub loses_due : Delivery → Bool
  loses_due d = is_due event.id d && loses_session d

  abbrev pub settle_due : Delivery → Delivery
  settle_due d = if is_due event.id d then settle d else d

update_first-here :
    (f : Delivery → Delivery) (d : Delivery) (xs ys : List Delivery)
    → All (λ x. (d.id == x.id) ≡ false) xs
    → update_first (is_delivery d.id) f (xs ++ d ∷ ys) ≡ xs ++ f d ∷ ys
update_first-here f d [] ys h = rw (same d.id) refl
  where
    same : (n : ℕ) → (n == n) ≡ true
    same n = ground arith
update_first-here f d (x ∷ xs) ys h =
    rw (flip d.id x.id h.0) (ap (λ zs. x ∷ zs) (update_first-here f d xs ys h.1))
  where
    flip : (m n : ℕ) → (m == n) ≡ false → (n == m) ≡ false
    flip m n e = ground (arith, e)

module _ (env : Dispatcher) (event : AiEvent) (db : EventDb) (xs ys : List Delivery)
    (d : Delivery) where
  abbrev with_rows : List Delivery → EventDb
  with_rows rows = record db { deliveries = rows }

  process_one :
      All (λ x. (d.id == x.id) ≡ false) xs
      → process_delivery env event d (with_rows (xs ++ d ∷ ys)) ≡ (
          if loses_session env event db.subscriptions d
          then none
          else some (with_rows (xs ++ settle env event db.subscriptions d ∷ ys)))
  unfolding process_delivery
  process_one apart =
      elim (Option-cases (find (is_subscription d.subscriber_id) db.subscriptions)) [
        | inl gone ↦ rw (gone, process_delivery, settle, loses_session) refl
        | inr (sub, found) ↦
            rw (found, process_delivery, settle, loses_session)
              (elim (Bool-cases (is_some d.processed_event_key && is_delivered d.status)) [
                | inl processed ↦ rw (processed, process_delivery, settle, loses_session) refl
                | inr fresh ↦
                    rw (fresh, process_delivery, settle, loses_session)
                      (elim (Bool-cases (is_leased (env.taken_at d.id) d)) [
                        | inl leased ↦ rw (leased, process_delivery, settle, loses_session) refl
                        | inr free ↦
                            rw (free, process_delivery, settle, loses_session)
                              (elim (Option-cases (get_handler sub.subscriber_name env.registry)) [
                                | inl missing ↦
                                    rw (missing, process_delivery, settle, loses_session)
                                      (ap (λ r. some (with_rows r))
                                        (update_first-here _ d xs ys apart))
                                | inr (handler, e) ↦
                                    rw (e, process_delivery, settle, loses_session)
                                      (ap
                                        (λ r.
                                          if is_lost (handler event (d.attempt + 1))
                                          then none
                                          else some (with_rows r))
                                        (ap (update_first (is_delivery d.id) _)
                                            (update_first-here _ d xs ys apart)
                                          ∙ update_first-here _
                                              (leased_row env.worker_id (env.taken_at d.id) d) xs ys
                                              apart))
                              ])
                      ])
              ])
      ]

module _ (env : Dispatcher) (event : AiEvent) (subs : List Subscription) where
  outcome_row-id :
      (now : ℕ) (sub : Subscription) (attempt : ℕ) (o : Outcome) (d : Delivery)
      → (outcome_row env now sub attempt o d).id ≡ d.id
  unfolding outcome_row failed_row
  outcome_row-id now sub attempt o d = ground arith

  settle-id : (d : Delivery) → (settle env event subs d).id ≡ d.id
  settle-id d = elim (Option-cases (find (is_subscription d.subscriber_id) subs)) [
    | inl gone ↦ rw (gone, settle) refl
    | inr (sub, found) ↦
        rw (found, settle)
          (elim (Bool-cases (is_some d.processed_event_key && is_delivered d.status)) [
            | inl processed ↦ rw (processed, settle) refl
            | inr fresh ↦
                rw (fresh, settle)
                  (elim (Bool-cases (is_leased (env.taken_at d.id) d)) [
                    | inl leased ↦ rw (leased, settle) refl
                    | inr free ↦
                        rw (free, settle)
                          (elim (Option-cases (get_handler sub.subscriber_name env.registry)) [
                            | inl missing ↦ rw (missing, settle) refl
                            | inr (handler, e) ↦ rw (e, settle) (outcome_row-id _ sub _ _ _)
                          ])
                  ])
          ])
  ]

  pub settle_due-id : (d : Delivery) → (settle_due env event subs d).id ≡ d.id
  settle_due-id d = elim (Bool-cases (is_due event.id d)) [
    | inl due ↦ rw (due, settle_due) (settle-id d)
    | inr idle ↦ rw (idle, settle_due) refl
  ]

-- No row of the first list has the key.
abbrev IsApart : List Delivery → ℕ → Type 0
IsApart xs n = All (λ x. (n == x.id) ≡ false) xs

abbrev AllApart : List Delivery → List Delivery → Type 0
AllApart xs ys = All (λ y. IsApart xs y.id) ys

-- Moving the first row of the second list, once settled, to the end of the first.
AllApart-moved :
    (xs ys : List Delivery) (d d' : Delivery)
    → d'.id ≡ d.id
    → All (λ y. (d.id == y.id) ≡ false) ys
    → AllApart xs ys
    → AllApart (xs ++ d' ∷ []) ys
AllApart-moved xs [] d d' e first h = tt
AllApart-moved xs (y ∷ ys) d d' e first h = (
  All-append (λ x. (y.id == x.id) ≡ false) xs (d' ∷ []) h.0 (rw e (ground (arith, first.0)), tt),
  AllApart-moved xs ys d d' e first.1 h.1,
)

module _ (env : Dispatcher) (event : AiEvent) (db : EventDb) where
  abbrev pub lost : Delivery → Bool
  lost = loses_due env event db.subscriptions

  abbrev settled : Delivery → Delivery
  settled = settle_due env event db.subscriptions

  -- What is left of the loop after the rows `xs`.
  abbrev Rest : List Delivery → List Delivery → Type 0
  Rest xs ys =
      process_all env event (filter (is_due event.id) ys) (record db { deliveries = xs ++ ys })
      ≡ (if any lost ys then none else some (record db { deliveries = xs ++ map settled ys }))

  process_due : (xs ys : List Delivery) → AllApart xs ys → IsDistinct ys → Rest xs ys
  unfolding process_all
  process_due xs [] apart distinct = refl
  process_due xs (d ∷ ys) apart distinct = elim (Bool-cases (is_due event.id d)) [
    | inr idle ↦
        rw (idle, settle_due, loses_due) (next (λ zs h. process_due zs ys h distinct.1) d refl)
    | inl due ↦
        rw (due, settle_due, loses_due)
          (elim (Bool-cases (loses_session env event db.subscriptions d)) [
            | inl gone ↦
                rw (process_one env event db xs ys d apart.0, process_all)
                  (rw (gone, process_all) refl)
            | inr kept ↦
                rw (process_one env event db xs ys d apart.0, process_all)
                  (rw (kept, process_all)
                    (next (λ zs h. process_due zs ys h distinct.1)
                      (settle env event db.subscriptions d)
                      (settle-id env event db.subscriptions d)))
          ])
  ]
    where
      next :
          ((zs : List Delivery) → AllApart zs ys → Rest zs ys)
          → (d' : Delivery) → d'.id ≡ d.id
          → process_all env event
              (filter (is_due event.id) ys)
              (record db { deliveries = xs ++ d' ∷ ys })
            ≡ (if any lost ys
                then none
                else some (record db { deliveries = xs ++ d' ∷ map settled ys }))
      next rest d' e =
          ap
            (λ rows.
              process_all env event (filter (is_due event.id) ys) (record db { deliveries = rows }))
            (sym (append_assoc xs (d' ∷ []) ys))
          ∙ rest (xs ++ d' ∷ []) (AllApart-moved xs ys d d' e distinct.0 apart.1)
          ∙ ap (λ rows. if any lost ys then none else some (record db { deliveries = rows }))
              (append_assoc xs (d' ∷ []) (map settled ys))

AllApart-nil : (ys : List Delivery) → AllApart [] ys
AllApart-nil [] = tt
AllApart-nil (y ∷ ys) = (tt, AllApart-nil ys)

-- The loop of dispatch, which reads the due deliveries once and then writes their rows one after the
-- other, does what settling every delivery alone would do. In a table with distinct keys, if no due
-- delivery's handler loses the session, each due delivery ends as its own subscription and handler make
-- it, whether the handlers of the others succeed, raise or time out, and no other row, event or
-- subscription changes. If one loses the session, dispatch raises, and nothing of it is kept.
pub dispatch_isolated :
    (env : Dispatcher) (event : AiEvent) (db : EventDb)
    → IsDistinct db.deliveries
    → dispatch env event db ≡ (
        if any (loses_due env event db.subscriptions) db.deliveries
        then none
        else some
            (record db { deliveries = map (settle_due env event db.subscriptions) db.deliveries }))
unfolding dispatch
dispatch_isolated env event db distinct =
    process_due env event db [] db.deliveries (AllApart-nil db.deliveries) distinct
