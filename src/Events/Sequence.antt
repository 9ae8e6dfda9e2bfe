-- ===== src/Events/Sequence.antt =====
-- Sequences of operations on the event tables, and what they keep of the log.
use mathlib.Core.Path.{subst}
use mathlib.Core.Bool.{false≢true}
use mathlib.Core.List.{append_assoc, append-nil}
use hire_ai.Prelude.{
  take, ℕ, ◌<◌, ◌≡◌, refl, sym, ap, ◌∙◌, inl, inr, String, Bool, true, Option, List, [], ◌∷◌, ◌++◌,
  map, filter, IsSortedBy, sort_by-sorted, All, ◌==◌, arith, Bool-cases, Option-cases,
}
use hire_ai.Events.{EventType, AiEvent, EventDb, is_event}
use hire_ai.Events.Repository.{
  Draft, mark_event_delivered, mark_event_failed, by_sequence, is_replayed, list_replay_events,
  has_expired, archive_expired_events, Settings, upsert_subscription, get_subscription,
}
use hire_ai.Events.Leases.{requeue_stale_leases}
use hire_ai.Events.Bus.{Dispatcher, route, dispatch, or_unchanged, publish}
use hire_ai.Events.Log.{
  Before, IsSequenced, IsSequenced-update_where, frozen, Extends, map-frozen-update_where, KeepsLog,
  dispatch-events, publish-IsSequenced, publish-Extends,
}

-- The operations of the bus and of the repository that write to the tables.
pub data EventOp : Type 0 where
  publish_op : Dispatcher → (ℕ → ℕ) → (now new_id new_key : ℕ) → Draft → EventOp
  route_op : (ℕ → ℕ) → AiEvent → EventOp
  dispatch_op : Dispatcher → AiEvent → EventOp
  mark_delivered_op : ℕ → EventOp
  mark_failed_op : ℕ → EventOp
  archive_op : (now : ℕ) → EventOp
  upsert_op : (now new_id : ℕ) → String → EventType → Settings → EventOp
  requeue_op : (now : ℕ) → EventOp

module _ (isoformat uuid_str : ℕ → String) where
  unfoldable pub run_op : EventOp → EventDb → EventDb
  run_op (publish_op env fresh now new_id new_key draft) db =
      or_unchanged db (publish env isoformat uuid_str fresh now new_id new_key draft db)
  run_op (route_op fresh event) db = (route fresh event db).1
  run_op (dispatch_op env event) db = or_unchanged db (dispatch env event db)
  run_op (mark_delivered_op event_id) db = mark_event_delivered event_id db
  run_op (mark_failed_op event_id) db = mark_event_failed event_id db
  run_op (archive_op now) db = (archive_expired_events now db).1
  run_op (upsert_op now new_id name event_type settings) db =
      (upsert_subscription now new_id name event_type settings db).1
  run_op (requeue_op now) db = (requeue_stale_leases now db).1

  abbrev pub run_ops : List EventOp → EventDb → EventDb
  run_ops [] db = db
  run_ops (op ∷ ops) db = run_ops ops (run_op op db)

  upsert-events :
      (now new_id : ℕ) (name : String) (event_type : EventType) (settings : Settings) (db : EventDb)
      → (upsert_subscription now new_id name event_type settings db).1.events ≡ db.events
  unfolding upsert_subscription
  upsert-events now new_id name event_type settings db =
      elim (Option-cases (get_subscription name event_type db)) [
        | inl missing ↦ rw (missing, upsert_subscription) refl
        | inr (s, found) ↦ rw (found, upsert_subscription) refl
      ]

  run_op-IsSequenced :
      (op : EventOp) (db : EventDb) → IsSequenced db.events → IsSequenced (run_op op db).events
  unfolding run_op route mark_event_delivered mark_event_failed archive_expired_events
      requeue_stale_leases
  run_op-IsSequenced (publish_op env fresh now new_id new_key draft) db h =
      elim (Option-cases (publish env isoformat uuid_str fresh now new_id new_key draft db)) [
        | inl refused ↦ rw refused h
        | inr (db', e) ↦
            rw e
              (publish-IsSequenced env isoformat uuid_str fresh now new_id new_key draft db db' e h)
      ]
  run_op-IsSequenced (route_op fresh event) db h = h
  run_op-IsSequenced (dispatch_op env event) db h = elim (Option-cases (dispatch env event db)) [
    | inl e ↦ rw e h
    | inr (db', e) ↦
        rw e (subst IsSequenced (sym (subst (KeepsLog db) e (dispatch-events env event db))) h)
  ]
  run_op-IsSequenced (mark_delivered_op event_id) db h =
      IsSequenced-update_where (is_event event_id) _ (λ e. refl) (λ e. refl) db.events h
  run_op-IsSequenced (mark_failed_op event_id) db h =
      IsSequenced-update_where (is_event event_id) _ (λ e. refl) (λ e. refl) db.events h
  run_op-IsSequenced (archive_op now) db h =
      IsSequenced-update_where (has_expired now) _ (λ e. refl) (λ e. refl) db.events h
  run_op-IsSequenced (upsert_op now new_id name event_type settings) db h =
      subst IsSequenced (sym (upsert-events now new_id name event_type settings db)) h
  run_op-IsSequenced (requeue_op now) db h = h

  -- If within every organization the events stand in the table by strictly increasing sequence
  -- numbers, they still do after any sequence of operations.
  pub run_ops-IsSequenced :
      (ops : List EventOp) (db : EventDb)
      → IsSequenced db.events
      → IsSequenced (run_ops ops db).events
  run_ops-IsSequenced [] db h = h
  run_ops-IsSequenced (op ∷ ops) db h =
      run_ops-IsSequenced ops (run_op op db) (run_op-IsSequenced op db h)

  unchanged : (es es' : List AiEvent) → es' ≡ es → Extends es es'
  unchanged es es' e = ([], ap (map frozen) e ∙ sym (append-nil (map frozen es)))

  same_frozen : (es es' : List AiEvent) → map frozen es' ≡ map frozen es → Extends es es'
  same_frozen es es' e = ([], e ∙ sym (append-nil (map frozen es)))

  run_op-Extends : (op : EventOp) (db : EventDb) → Extends db.events (run_op op db).events
  unfolding run_op route mark_event_delivered mark_event_failed archive_expired_events
      requeue_stale_leases
  run_op-Extends (publish_op env fresh now new_id new_key draft) db =
      elim (Option-cases (publish env isoformat uuid_str fresh now new_id new_key draft db)) [
        | inl refused ↦ rw refused (unchanged db.events db.events refl)
        | inr (db', e) ↦
            rw e (publish-Extends env isoformat uuid_str fresh now new_id new_key draft db db' e)
      ]
  run_op-Extends (route_op fresh event) db = unchanged db.events _ refl
  run_op-Extends (dispatch_op env event) db = elim (Option-cases (dispatch env event db)) [
    | inl e ↦ rw e (unchanged db.events db.events refl)
    | inr (db', e) ↦
        rw e (unchanged db.events db'.events (subst (KeepsLog db) e (dispatch-events env event db)))
  ]
  run_op-Extends (mark_delivered_op event_id) db =
      same_frozen db.events _ (map-frozen-update_where (is_event event_id) _ (λ e. refl) db.events)
  run_op-Extends (mark_failed_op event_id) db =
      same_frozen db.events _ (map-frozen-update_where (is_event event_id) _ (λ e. refl) db.events)
  run_op-Extends (archive_op now) db =
      same_frozen db.events _ (map-frozen-update_where (has_expired now) _ (λ e. refl) db.events)
  run_op-Extends (upsert_op now new_id name event_type settings) db =
      unchanged db.events _ (upsert-events now new_id name event_type settings db)
  run_op-Extends (requeue_op now) db = unchanged db.events _ refl

  -- The log is append-only: after any sequence of operations the table holds all earlier events, in
  -- their order and unchanged but for the status and the archive mark, followed by new ones.
  pub run_ops-Extends :
      (ops : List EventOp) (db : EventDb) → Extends db.events (run_ops ops db).events
  run_ops-Extends [] db = unchanged db.events db.events refl
  run_ops-Extends (op ∷ ops) db =
      let first = run_op-Extends op db in
      let rest = run_ops-Extends ops (run_op op db) in
      (
        first.0 ++ rest.0,
        rest.1
            ∙ ap (λ es. es ++ rest.0) first.1
            ∙ append_assoc (map frozen db.events) first.0 rest.0,
      )

IsSortedBy-filter :
    (org_id : ℕ) (p : AiEvent → Bool) (es : List AiEvent)
    → ((e : AiEvent) → p e ≡ true → e.organization_id ≡ org_id)
    → IsSequenced es
    → IsSortedBy by_sequence (filter p es)
IsSortedBy-filter org_id p [] ours h = tt
IsSortedBy-filter org_id p (e ∷ es) ours h = elim (Bool-cases (p e)) [
  | inl hit ↦ rw hit (later (ours e hit) es h.0, IsSortedBy-filter org_id p es ours h.1)
  | inr miss ↦ rw miss (IsSortedBy-filter org_id p es ours h.1)
]
  where
    later :
        e.organization_id ≡ org_id
        → (fs : List AiEvent) → All (Before e) fs
        → All (λ f. by_sequence e f ≡ true) (filter p fs)
    later o [] b = tt
    later o (f ∷ fs) b = elim (Bool-cases (p f)) [
      | inl hit ↦ rw hit (ordered f (b.0 (o ∙ sym (ours f hit))), later o fs b.1)
      | inr miss ↦ rw miss (later o fs b.1)
    ]
      where
        ordered : (f : AiEvent) → e.sequence_number < f.sequence_number → by_sequence e f ≡ true
        ordered f lt = ground (arith, lt)

-- In a table with increasing sequence numbers the replay query gives the matching events in the order
-- in which they were published, the first `limit` of them.
pub list_replay_events-in_order :
    (org_id : ℕ) (event_type : EventType) (from_sequence : ℕ) (to_sequence : Option ℕ) (limit : ℕ)
    (db : EventDb)
    → IsSequenced db.events
    → list_replay_events org_id event_type from_sequence to_sequence limit db
      ≡ take limit (filter (is_replayed org_id event_type from_sequence to_sequence) db.events)
unfolding list_replay_events
list_replay_events-in_order org_id event_type from_sequence to_sequence limit db h =
    ap (take limit) (
      sort_by-sorted by_sequence
        (filter (is_replayed org_id event_type from_sequence to_sequence) db.events)
        (IsSortedBy-filter org_id _ db.events of_org h))
  where
    of_org :
        (e : AiEvent)
        → is_replayed org_id event_type from_sequence to_sequence e ≡ true
        → e.organization_id ≡ org_id
    of_org e hit = elim (Bool-cases (e.organization_id == org_id)) [
      | inl same ↦ ground (arith, same)
      | inr other ↦ absurd (false≢true (rw other at hit))
    ]
