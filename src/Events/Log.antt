-- ===== src/Events/Log.antt =====
-- The log of events: what keeps its sequence numbers in order and its events unchanged.
use mathlib.Core.Path.{subst}
use mathlib.Core.List.{map-append}
use mathlib.Core.Option.{none-ne-some, some-injective}
use hire_ai.Prelude.{
  ℕ, ◌≤◌, ◌<◌, ◌≡◌, refl, sym, ap, ◌∙◌, inl, inr, String, Bool, true, false, ◌&&◌, ◌+◌, Option,
  none, some, List, [], ◌∷◌, ◌++◌, map, find, update_where, All, All-append, All-weaken,
  All-update_where, is_some, if◌then◌else◌, arith, Bool-cases, Option-cases,
}
use hire_ai.Events.Serializer.{serialize, Json}
use hire_ai.Events.{pending, is_delivered, AiEvent, Delivery, EventDb, is_subscription}
use hire_ai.Events.Repository.{max_sequence, next_sequence_number, Draft, new_event, append}
use hire_ai.Events.Registry.{is_lost, get_handler}
use hire_ai.Events.Bus.{
  Dispatcher, is_leased, route, process_delivery, process_all, dispatch, publish,
}

-- The earlier of two events of an organization has the smaller number.
abbrev pub Before : AiEvent → AiEvent → Type 0
Before e f = e.organization_id ≡ f.organization_id → e.sequence_number < f.sequence_number

abbrev pub IsSequenced : List AiEvent → Type 0
IsSequenced [] = Unit
IsSequenced (e ∷ es) = All (Before e) es × IsSequenced es

-- Two logs: the second extends the first by new events, and only the status and the
-- archive mark of an old event may differ.
abbrev pub frozen : AiEvent → AiEvent
frozen e = record e { status = pending; archived = false }

abbrev pub Extends : List AiEvent → List AiEvent → Type 0
Extends es es' = (later : List AiEvent) × (map frozen es' ≡ map frozen es ++ later)

max_sequence-bound :
    (org_id : ℕ) (es : List AiEvent)
    → All (λ e. e.organization_id ≡ org_id → e.sequence_number ≤ max_sequence org_id es) es
unfolding max_sequence
max_sequence-bound org_id [] = tt
max_sequence-bound org_id (e ∷ es) =
    (first, All-weaken _ _ es (λ f h o. omega (arith, h o, grows)) (max_sequence-bound org_id es))
  where
    grows : max_sequence org_id es ≤ max_sequence org_id (e ∷ es)
    grows = ground arith

    first : e.organization_id ≡ org_id → e.sequence_number ≤ max_sequence org_id (e ∷ es)
    first h = ground (arith, h)

IsSequenced-append :
    (es : List AiEvent) (e : AiEvent)
    → All (λ f. Before f e) es
    → IsSequenced es
    → IsSequenced (es ++ e ∷ [])
IsSequenced-append [] e all h = (tt, tt)
IsSequenced-append (f ∷ es) e all h =
    (All-append (Before f) es (e ∷ []) h.0 (all.0, tt), IsSequenced-append es e all.1 h.1)

module _ (p : AiEvent → Bool) (f : AiEvent → AiEvent) where
  pub IsSequenced-update_where :
      ((e : AiEvent) → (f e).organization_id ≡ e.organization_id)
      → ((e : AiEvent) → (f e).sequence_number ≡ e.sequence_number)
      → (es : List AiEvent) → IsSequenced es
      → IsSequenced (update_where p f es)
  IsSequenced-update_where org seq [] h = tt
  IsSequenced-update_where org seq (e ∷ es) h = (
    All-update_where p f (Before e') (Before e') es
        (λ x hit b. λ o. subst (λ n. e'.sequence_number < n) (sym (seq x)) (b (o ∙ org x)))
        (λ x b. b) (All-weaken (Before e) (Before e') es (λ x b. moved (p e) x b) h.0),
    IsSequenced-update_where org seq es h.1,
  )
    where
      e' : AiEvent
      e' = if p e then f e else e

      moved : (b : Bool) (x : AiEvent) → Before e x → Before (if b then f e else e) x
      moved true x h o = subst (λ n. n < x.sequence_number) (sym (seq e)) (h (sym (org e) ∙ o))
      moved false x h o = h o

  pub map-frozen-update_where :
      ((e : AiEvent) → frozen (f e) ≡ frozen e)
      → (es : List AiEvent) → map frozen (update_where p f es) ≡ map frozen es
  map-frozen-update_where same [] = refl
  map-frozen-update_where same (e ∷ es) = elim (Bool-cases (p e)) [
    | inl hit ↦ rw (hit, same e) (ap (λ rest. frozen e ∷ rest) (map-frozen-update_where same es))
    | inr miss ↦ rw miss (ap (λ rest. frozen e ∷ rest) (map-frozen-update_where same es))
  ]

-- What does not raise leaves the events.
abbrev pub KeepsLog : EventDb → Option EventDb → Type 0
KeepsLog db none = Unit
KeepsLog db (some db') = db'.events ≡ db.events

process_delivery-events :
    (env : Dispatcher) (event : AiEvent) (d : Delivery) (db : EventDb)
    → KeepsLog db (process_delivery env event d db)
unfolding process_delivery
process_delivery-events env event d db =
    elim (Option-cases (find (is_subscription d.subscriber_id) db.subscriptions)) [
      | inl gone ↦ rw (gone, process_delivery) refl
      | inr (sub, found) ↦
          rw (found, process_delivery)
            (elim (Bool-cases (is_some d.processed_event_key && is_delivered d.status)) [
              | inl processed ↦ rw (processed, process_delivery) refl
              | inr fresh ↦
                  rw (fresh, process_delivery)
                    (elim (Bool-cases (is_leased (env.taken_at d.id) d)) [
                      | inl leased ↦ rw (leased, process_delivery) refl
                      | inr free ↦
                          rw (free, process_delivery)
                            (elim (Option-cases (get_handler sub.subscriber_name env.registry)) [
                              | inl missing ↦ rw (missing, process_delivery) refl
                              | inr (handler, e) ↦
                                  rw (e, process_delivery)
                                    (elim (Bool-cases (is_lost (handler event (d.attempt + 1)))) [
                                      | inl gone ↦ rw (gone, process_delivery) tt
                                      | inr kept ↦ rw (kept, process_delivery) refl
                                    ])
                            ])
                    ])
            ])
    ]

process_all-events :
    (env : Dispatcher) (event : AiEvent) (ds : List Delivery) (db : EventDb)
    → KeepsLog db (process_all env event ds db)
unfolding process_all
process_all-events env event [] db = refl
process_all-events env event (d ∷ ds) db =
    after (process_delivery env event d db) (process_delivery-events env event d db)
      (λ x. process_all-events env event ds x)
  where
    trans : (x : EventDb) (o : Option EventDb) → x.events ≡ db.events → KeepsLog x o → KeepsLog db o
    trans x none h k = tt
    trans x (some y) h k = k ∙ h

    after :
        (o : Option EventDb)
        → KeepsLog db o
        → ((x : EventDb) → KeepsLog x (process_all env event ds x))
        → KeepsLog db (elim o [ none ↦ none | some db' ↦ process_all env event ds db' ])
    after none h k = tt
    after (some x) h k = trans x (process_all env event ds x) h (k x)

pub dispatch-events :
    (env : Dispatcher) (event : AiEvent) (db : EventDb) → KeepsLog db (dispatch env event db)
unfolding dispatch
dispatch-events env event db = process_all-events env event _ db

module _ (env : Dispatcher) (isoformat uuid_str : ℕ → String) (fresh : ℕ → ℕ)
    (now new_id new_key : ℕ) (draft : Draft) (db : EventDb) where
  abbrev published : Json → AiEvent
  published payload =
      new_event now new_id new_key (next_sequence_number draft.org_id db) payload
        (record draft { expires_at = none })

  -- A publication adds one PENDING event with the next number, or is refused.
  publish-events :
      (db' : EventDb)
      → publish env isoformat uuid_str fresh now new_id new_key draft db ≡ some db'
      → (payload : Json) × (db'.events ≡ db.events ++ published payload ∷ [])
  unfolding publish append route
  publish-events db' e = elim (Option-cases (serialize isoformat uuid_str draft.payload)) [
    | inl refused ↦ absurd (none-ne-some _ (rw (refused, publish, append) at e))
    | inr (payload, stored) ↦ (
      payload,
      after (published payload) (route fresh (published payload) (with_event payload)).0
          (route fresh (published payload) (with_event payload)).1
          (rw (stored, publish, append) at e),
    )
  ]
    where
      with_event : Json → EventDb
      with_event payload = record db { events = db.events ++ published payload ∷ [] }

      after :
          (event : AiEvent) (out : List Delivery) (r : EventDb)
          → (elim out [ [] ↦ some r | d ∷ ds ↦ dispatch env event r ]) ≡ some db'
          → db'.events ≡ r.events
      after event [] r h = ap (λ (x : EventDb). x.events) (sym (some-injective _ _ h))
      after event (d ∷ ds) r h = subst (KeepsLog r) h (dispatch-events env event r)

  next-Before :
      (payload : Json) (es : List AiEvent)
      → All
          (λ e.
            e.organization_id ≡ draft.org_id
            → e.sequence_number ≤ max_sequence draft.org_id db.events)
          es
      → All (λ e. Before e (published payload)) es
  unfolding new_event next_sequence_number
  next-Before payload [] h = tt
  next-Before payload (e ∷ es) h = ((λ o. omega (arith, h.0 o)), next-Before payload es h.1)

  pub publish-IsSequenced :
      (db' : EventDb)
      → publish env isoformat uuid_str fresh now new_id new_key draft db ≡ some db'
      → IsSequenced db.events
      → IsSequenced db'.events
  publish-IsSequenced db' e h =
      let added = publish-events db' e in
      subst IsSequenced (sym added.1) (
        IsSequenced-append db.events (published added.0)
          (next-Before added.0 db.events (max_sequence-bound draft.org_id db.events)) h)

  pub publish-Extends :
      (db' : EventDb)
      → publish env isoformat uuid_str fresh now new_id new_key draft db ≡ some db'
      → Extends db.events db'.events
  publish-Extends db' e =
      let added = publish-events db' e in
      (
        frozen (published added.0) ∷ [],
        ap (map frozen) added.1 ∙ map-append frozen db.events (published added.0 ∷ []),
      )
