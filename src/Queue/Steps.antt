-- ===== src/Queue/Steps.antt =====
-- Any sequence of queue operations keeps every queue sorted.
use mathlib.Core.Path.{subst}
use mathlib.Core.Option.{some-injective, none-ne-some}
use hire_ai.Prelude.{
  is_some, leb→le, ◌≤◌, ℕ, ◌≡◌, sym, ap, ◌∙◌, inl, inr, Bool, true, Option, some, List, [], ◌∷◌,
  ◌++◌, false, All, Bool-cases, Option-cases,
}
use hire_ai.Queue.{
  QueueType, QueueItem, ItemData, Queues, items_of, put_items, open_queue, enqueue, take_first,
  is_visible, lease, put_in_flight, dequeue, acknowledge, requeue, check_visibility_timeouts,
  clear_all, in_flight_item,
}
use hire_ai.Queue.Cases.{dequeue_empty, dequeue_taken, acknowledge_leased, acknowledge_unknown}
use hire_ai.Queue.Keeps.{
  AllOrdered-put_items, IsOrdered-items_of, open_ordered, requeue_ordered, requeue_expired_ordered,
}
use hire_ai.Queue.Order.{
  Precedes, take_first-Split, take_first_best, AllOrdered, sort_items-IsOrdered,
  take_first-IsOrdered,
}

-- An operation, on the queue that `RedisQueue(name)` opens.
pub data QueueOp : Type 0 where
  enqueue_op : QueueType → (now job_id rank : ℕ) → ItemData → QueueOp
  dequeue_op : QueueType → (now visibility_timeout_sec : ℕ) → QueueOp
  acknowledge_op : QueueType → (job_id : ℕ) → QueueOp
  requeue_op : QueueType → (now job_id delay_sec : ℕ) → QueueOp
  check_op : QueueType → (now later : ℕ) → QueueOp
  clear_op : QueueOp

unfoldable pub step : QueueOp → Queues → Queues
step (enqueue_op name now job_id rank item_data) q =
    enqueue name now job_id rank item_data (open_queue name q)
step (dequeue_op name now visibility_timeout_sec) q =
    (dequeue name now visibility_timeout_sec (open_queue name q)).1
step (acknowledge_op name job_id) q = (acknowledge job_id (open_queue name q)).1
step (requeue_op name now job_id delay_sec) q =
    (requeue name now job_id delay_sec (open_queue name q)).1
step (check_op name now later) q = (check_visibility_timeouts name now later (open_queue name q)).1
step clear_op q = clear_all q

unfoldable pub steps : List QueueOp → Queues → Queues
steps [] q = q
steps (o ∷ os) q = steps os (step o q)

pub step_ordered :
    (o : QueueOp) (q : Queues) → AllOrdered q.memory_queues → AllOrdered (step o q).memory_queues
unfolding step enqueue clear_all check_visibility_timeouts
step_ordered (enqueue_op name now job_id rank item_data) q h =
    AllOrdered-put_items name _ _ (sort_items-IsOrdered _) (open_ordered name q h)
step_ordered (dequeue_op name now n) q h =
    let p = open_queue name q in
    elim (Option-cases (take_first (is_visible now) (items_of name p.memory_queues))) [
      | inl e ↦
          subst (λ (r : Option QueueItem × Queues). AllOrdered r.1.memory_queues)
            (sym (dequeue_empty name now n p e)) (open_ordered name q h)
      | inr ((x, rest), e) ↦
          subst (λ (r : Option QueueItem × Queues). AllOrdered r.1.memory_queues)
            (sym (dequeue_taken name now n p x rest e))
            (AllOrdered-put_items name rest _
              (take_first-IsOrdered _ _ x rest e
                (IsOrdered-items_of name _ (open_ordered name q h)))
              (open_ordered name q h))
    ]
step_ordered (acknowledge_op name job_id) q h =
    let p = open_queue name q in
    elim (Bool-cases (is_some (in_flight_item job_id p.in_flight))) [
      | inl held ↦
          subst (λ (r : Bool × Queues). AllOrdered r.1.memory_queues)
            (sym (acknowledge_leased job_id p held)) (open_ordered name q h)
      | inr gone ↦
          subst (λ (r : Bool × Queues). AllOrdered r.1.memory_queues)
            (sym (acknowledge_unknown job_id p gone)) (open_ordered name q h)
    ]
step_ordered (requeue_op name now job_id delay_sec) q h =
    requeue_ordered name now job_id delay_sec (open_queue name q) (open_ordered name q h)
step_ordered (check_op name now later) q h =
    requeue_expired_ordered name now later _ (open_queue name q) (open_ordered name q h)
step_ordered clear_op q h = tt

-- Whatever operations are called, in whatever order and at whatever times, every queue stays sorted:
-- higher priorities first, and earlier arrivals first among equals.
pub steps_ordered :
    (os : List QueueOp) (q : Queues)
    → AllOrdered q.memory_queues
    → AllOrdered (steps os q).memory_queues
unfolding steps
steps_ordered [] q h = h
steps_ordered (o ∷ os) q h = steps_ordered os (step o q) (step_ordered o q h)

-- In a store whose queues are sorted, the item that `dequeue` hands out stood in its queue with only
-- invisible items before it, was visible itself, and precedes every other visible item of the queue. All
-- the others stay, in their order, and the item is leased: it is in flight until now plus the timeout.
pub dequeue_best :
    (name : QueueType) (now n : ℕ) (q q' : Queues) (y : QueueItem)
    → AllOrdered q.memory_queues
    → dequeue name now n q ≡ (some y, q')
    → (x : QueueItem) × (before : List QueueItem) × (after : List QueueItem) × (y ≡ lease now n x)
      × (items_of name q.memory_queues ≡ before ++ x ∷ after)
      × All (λ z. is_visible now z ≡ false) before
      × (x.invisible_until ≤ now)
      × All (λ z. is_visible now z ≡ true → Precedes x z) (before ++ after)
      × (q'.memory_queues ≡ put_items name (before ++ after) q.memory_queues)
      × (q'.in_flight ≡ put_in_flight x.job_id y q.in_flight)
dequeue_best name now n q q' y h e =
    elim (Option-cases (take_first (is_visible now) (items_of name q.memory_queues))) [
      | inl e' ↦ absurd (
          none-ne-some _
            (ap (λ (r : Option QueueItem × Queues). r.0) (sym (dequeue_empty name now n q e') ∙ e)))
      | inr ((x, rest), took) ↦
          let r = sym (dequeue_taken name now n q x rest took) ∙ e in
          let split = take_first-Split _ _ x rest took in
          let best = take_first_best _ _ x rest took (IsOrdered-items_of name _ h) in
          let same : lease now n x ≡ y =
            some-injective _ _ (ap (λ (r : Option QueueItem × Queues). r.0) r) in
          (
            x,
            split.before,
            split.after,
            sym same,
            split.whole,
            split.skipped,
            leb→le _ _ best.0,
            subst (All (λ z. is_visible now z ≡ true → Precedes x z)) split.left best.1,
            ap (λ (r : Option QueueItem × Queues). r.1.memory_queues) (sym r)
                ∙ ap (λ items. put_items name items q.memory_queues) split.left,
            ap (λ (r : Option QueueItem × Queues). r.1.in_flight) (sym r)
                ∙ ap (λ z. put_in_flight x.job_id z q.in_flight) same,
          )
    ]
