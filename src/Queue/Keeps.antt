-- ===== src/Queue/Keeps.antt =====
-- The parts of the queue operations keep every queue sorted.
use mathlib.Core.Path.{subst}
use mathlib.Core.Option.{some-injective, none-ne-some}
use hire_ai.Prelude.{
  ℕ, ◌+◌, ◌≡◌, sym, ap, ◌∙◌, inl, inr, Bool, true, false, some, List, [], ◌∷◌, ◌++◌, if◌then◌else◌,
  Bool-cases, Option-cases, leb,
}
use hire_ai.Queue.{
  QueueType, QueueItem, Queues, items_of, put_items, same_queue, open_queue, has_queue, take_first,
  is_of_job, take_queued, put_back, requeue, requeue_expired, in_flight_item, drop_in_flight,
}
use hire_ai.Queue.Cases.{
  requeue_leased, requeue_queued, requeue_unknown, take_queued_here, take_queued_later,
  take_queued_nowhere, take_queued_empty,
}
use hire_ai.Queue.Order.{IsOrdered, AllOrdered, sort_items-IsOrdered, take_first-IsOrdered}

pub AllOrdered-put_items :
    (name : QueueType) (items : List QueueItem) (queues : List (QueueType × List QueueItem))
    → IsOrdered items
    → AllOrdered queues
    → AllOrdered (put_items name items queues)
unfolding put_items
AllOrdered-put_items name items [] new h = (new, tt)
AllOrdered-put_items name items ((n, old) ∷ rest) new h = elim (Bool-cases (same_queue n name)) [
  | inl same ↦ rw same (new, h.1)
  | inr other ↦ rw other (h.0, AllOrdered-put_items name items rest new h.1)
]

pub IsOrdered-items_of :
    (name : QueueType) (queues : List (QueueType × List QueueItem))
    → AllOrdered queues
    → IsOrdered (items_of name queues)
unfolding items_of
IsOrdered-items_of name [] h = tt
IsOrdered-items_of name ((n, old) ∷ rest) h = elim (Bool-cases (same_queue n name)) [
  | inl same ↦ rw same h.0
  | inr other ↦ rw other (IsOrdered-items_of name rest h.1)
]

AllOrdered-append :
    (queues : List (QueueType × List QueueItem)) (name : QueueType)
    → AllOrdered queues
    → AllOrdered (queues ++ (name, []) ∷ [])
AllOrdered-append [] name h = (tt, tt)
AllOrdered-append (q ∷ queues) name h = (h.0, AllOrdered-append queues name h.1)

pub open_ordered :
    (name : QueueType) (q : Queues)
    → AllOrdered q.memory_queues
    → AllOrdered (open_queue name q).memory_queues
unfolding open_queue
open_ordered name q h = elim (Bool-cases (has_queue name q.memory_queues)) [
  | inl old ↦ rw old h
  | inr new ↦ rw new (AllOrdered-append q.memory_queues name h)
]

put_back_ordered :
    (name : QueueType) (visible_at : ℕ) (x : QueueItem) (q : Queues)
    → AllOrdered q.memory_queues
    → AllOrdered (put_back name visible_at x q).memory_queues
put_back_ordered name visible_at x q h =
    AllOrdered-put_items name _ q.memory_queues (sort_items-IsOrdered _) h

take_queued_ordered :
    (job_id : ℕ) (queues : List (QueueType × List QueueItem)) (x : QueueItem)
    (left : List (QueueType × List QueueItem))
    → take_queued job_id queues ≡ some (x, left)
    → AllOrdered queues
    → AllOrdered left
take_queued_ordered job_id [] x left h ordered =
    absurd (none-ne-some _ (sym (take_queued_empty job_id) ∙ h))
take_queued_ordered job_id ((n, items) ∷ rest) x left h ordered =
    elim (Option-cases (take_first (is_of_job job_id) items)) [
      | inl e ↦ elim (Option-cases (take_queued job_id rest)) [
        | inl e' ↦ absurd (none-ne-some _ (sym (take_queued_nowhere job_id n items rest e e') ∙ h))
        | inr ((y, ys), e') ↦
            subst AllOrdered (left_of (take_queued_later job_id n items rest y ys e e'))
              (ordered.0, take_queued_ordered job_id rest y ys e' ordered.1)
      ]
      | inr ((y, ys), e) ↦
          subst AllOrdered (left_of (take_queued_here job_id n items rest y ys e))
            (take_first-IsOrdered _ items y ys e ordered.0, ordered.1)
    ]
  where
    left_of :
        {y : QueueItem} {ys : List (QueueType × List QueueItem)}
        → take_queued job_id ((n, items) ∷ rest) ≡ some (y, ys)
        → ys ≡ left
    left_of e =
        ap (λ (r : QueueItem × List (QueueType × List QueueItem)). r.1)
          (some-injective _ _ (sym e ∙ h))

pub requeue_ordered :
    (name : QueueType) (now job_id delay_sec : ℕ) (q : Queues)
    → AllOrdered q.memory_queues
    → AllOrdered (requeue name now job_id delay_sec q).1.memory_queues
requeue_ordered name now job_id delay_sec q h =
    elim (Option-cases (in_flight_item job_id q.in_flight)) [
      | inr (x, e) ↦
          subst (λ (r : Bool × Queues). AllOrdered r.1.memory_queues)
            (sym (requeue_leased name now job_id delay_sec q x e))
            (put_back_ordered name (now + delay_sec) x
              (record q { in_flight = drop_in_flight job_id q.in_flight }) h)
      | inl e ↦ elim (Option-cases (take_queued job_id q.memory_queues)) [
        | inl e' ↦
            subst (λ (r : Bool × Queues). AllOrdered r.1.memory_queues)
              (sym (requeue_unknown name now job_id delay_sec q e e')) h
        | inr ((x, left), e') ↦
            subst (λ (r : Bool × Queues). AllOrdered r.1.memory_queues)
              (sym (requeue_queued name now job_id delay_sec q x left e e'))
              (put_back_ordered name (now + delay_sec) x (record q { memory_queues = left })
                (take_queued_ordered job_id q.memory_queues x left e' h))
      ]
    ]

pub requeue_expired_ordered :
    (name : QueueType) (now later : ℕ) (items : List (ℕ × QueueItem)) (q : Queues)
    → AllOrdered q.memory_queues
    → AllOrdered (requeue_expired name now later items q).1.memory_queues
unfolding requeue_expired
requeue_expired_ordered name now later [] q h = h
requeue_expired_ordered name now later ((j, x) ∷ rest) q h =
    requeue_expired_ordered name now later rest _ (kept (leb x.invisible_until now))
  where
    kept : (b : Bool) → AllOrdered (if b then (requeue name later j 0 q).1 else q).memory_queues
    kept true = requeue_ordered name later j 0 q h
    kept false = h
