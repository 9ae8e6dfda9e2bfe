-- ===== src/Events/Leases.antt =====
-- The deliveries in repositories/event_repository.py: dead letters, stale leases, counts.
use hire_ai.Prelude.{
  take, ℕ, ◌+◌, Bool, true, false, ◌&&◌, none, some, List, [], ◌∷◌, length, filter, update_first,
  sort_by, leb,
}
use hire_ai.Events.{retrying, is_open, is_dead_letter, Delivery, EventDb, is_delivery}

-- `failed_at DESC`, as PostgreSQL sorts: a NULL comes first.
abbrev pub by_failure : Delivery → Delivery → Bool
by_failure d e = elim d.failed_at [
  | none ↦ true
  | some t ↦ elim e.failed_at [ none ↦ false | some u ↦ leb u t ]
]

unfoldable pub list_dead_letter : (limit : ℕ) → EventDb → List Delivery
list_dead_letter limit db =
    take limit (sort_by by_failure (filter (λ d. is_dead_letter d.status) db.deliveries))

-- Held, and expired for more than the grace period.
abbrev pub is_stale : (now grace_seconds : ℕ) → Delivery → Bool
is_stale now grace_seconds d = elim d.lease_owner [
  | none ↦ false
  | some owner ↦ elim d.lease_expires_at [
    | none ↦ false
    | some expiry ↦ leb (expiry + grace_seconds) now && is_open d.status
  ]
]

unfoldable pub list_stale_leases : (now grace_seconds : ℕ) → EventDb → List Delivery
list_stale_leases now grace_seconds db = filter (is_stale now grace_seconds) db.deliveries

abbrev pub requeued_row : Delivery → Delivery
requeued_row d = record d { lease_owner = none; lease_expires_at = none; status = retrying }

unfoldable pub requeue_all : List Delivery → List Delivery → List Delivery
requeue_all [] rows = rows
requeue_all (d ∷ stale) rows = requeue_all stale (update_first (is_delivery d.id) requeued_row rows)

-- `requeue_stale_leases`, with the default grace of 30 seconds.
unfoldable pub requeue_stale_leases : (now : ℕ) → EventDb → ℕ × EventDb
requeue_stale_leases now db =
    let stale = list_stale_leases now 30 db in
    (length stale, record db { deliveries = requeue_all stale db.deliveries })
