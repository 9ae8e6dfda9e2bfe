-- ===== src/Queue/Tests.antt =====
-- The laws of the queues at a store with two items.
use hire_ai.Prelude.{ℕ, ◌≤◌, ◌≡◌, refl, true, some, List, [], ◌∷◌, ◌++◌, false, All}
use hire_ai.Queue.{
  QueueItem, Queues, default, failed_data, items_of, put_items, put_in_flight, is_visible, lease,
  dequeue, take_first, sorts_before,
}
use hire_ai.Queue.Order.{Precedes, AllOrdered}
use hire_ai.Queue.Steps.{
  QueueOp, enqueue_op, dequeue_op, requeue_op, steps, steps_ordered, dequeue_best,
}

abbrev no_queues : Queues
no_queues = record { memory_queues = []; in_flight = [] }

abbrev some_ops : List QueueOp
some_ops =
    enqueue_op default 1 10 5 failed_data
    ∷ enqueue_op default 2 11 9 failed_data
    ∷ dequeue_op default 3 60
    ∷ requeue_op default 4 11 0
    ∷ []

steps_ordered_example : AllOrdered (steps some_ops no_queues).memory_queues
steps_ordered_example = steps_ordered some_ops no_queues tt

abbrev item : ℕ → ℕ → QueueItem
item job_id rank = record {
  job_id = job_id;
  priority = rank;
  item_data = failed_data;
  queue_type = default;
  enqueued_at = 1;
  invisible_until = 0;
  attempts = 0;
}

abbrev two_items : Queues
two_items = record { memory_queues = (default, item 11 9 ∷ item 10 5 ∷ []) ∷ []; in_flight = [] }

taken :
    dequeue default 3 60 two_items
    ≡ (some (lease 3 60 (item 11 9)), (dequeue default 3 60 two_items).1)
unfolding dequeue take_first items_of
taken = refl

first : Precedes (item 11 9) (item 10 5)
unfolding sorts_before
first = refl

dequeue_best_example :
    (x : QueueItem) × (before : List QueueItem) × (after : List QueueItem) × (lease 3 60 (item 11 9)
      ≡ lease 3 60 x)
    × (items_of default two_items.memory_queues ≡ before ++ x ∷ after)
    × All (λ z. is_visible 3 z ≡ false) before
    × (x.invisible_until ≤ 3)
    × All (λ z. is_visible 3 z ≡ true → Precedes x z) (before ++ after)
    × ((dequeue default 3 60 two_items).1.memory_queues
        ≡ put_items default (before ++ after) two_items.memory_queues)
    × ((dequeue default 3 60 two_items).1.in_flight
        ≡ put_in_flight x.job_id (lease 3 60 (item 11 9)) two_items.in_flight)
dequeue_best_example =
    dequeue_best default 3 60 two_items (dequeue default 3 60 two_items).1 (lease 3 60 (item 11 9))
      (((first, tt), (tt, tt)), tt) taken
