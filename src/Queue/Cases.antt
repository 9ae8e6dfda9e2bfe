-- ===== src/Queue/Cases.antt =====
-- The branches of the queue operations as equations.
use hire_ai.Prelude.{ℕ, ◌+◌, ◌≡◌, refl, true, false, none, some, List, [], ◌∷◌, is_some}
use hire_ai.Queue.{
  QueueType, QueueItem, Queues, items_of, put_items, take_first, is_visible, is_of_job, lease,
  dequeue, acknowledge, take_queued, put_back, requeue, in_flight_item, put_in_flight,
  drop_in_flight,
}

module _ (name : QueueType) (now n : ℕ) (q : Queues) where
  pub dequeue_empty :
      take_first (is_visible now) (items_of name q.memory_queues) ≡ none
      → dequeue name now n q ≡ (none, q)
  unfolding dequeue
  dequeue_empty e = rw (e, dequeue)

  pub dequeue_taken :
      (x : QueueItem) (rest : List QueueItem)
      → take_first (is_visible now) (items_of name q.memory_queues) ≡ some (x, rest)
      → dequeue name now n q ≡ (
        some (lease now n x),
        record {
          memory_queues = put_items name rest q.memory_queues;
          in_flight = put_in_flight x.job_id (lease now n x) q.in_flight;
        },
      )
  unfolding dequeue
  dequeue_taken x rest e = rw (e, dequeue)

module _ (name : QueueType) (now job_id delay_sec : ℕ) (q : Queues) where
  pub requeue_leased :
      (x : QueueItem)
      → in_flight_item job_id q.in_flight ≡ some x
      → requeue name now job_id delay_sec q ≡ (
        true,
        put_back name
            (now + delay_sec)
            x
            (record q { in_flight = drop_in_flight job_id q.in_flight }),
      )
  unfolding requeue
  requeue_leased x e = rw (e, requeue)

  pub requeue_queued :
      (x : QueueItem) (left : List (QueueType × List QueueItem))
      → in_flight_item job_id q.in_flight ≡ none
      → take_queued job_id q.memory_queues ≡ some (x, left)
      → requeue name now job_id delay_sec q
        ≡ (true, put_back name (now + delay_sec) x (record q { memory_queues = left }))
  unfolding requeue
  requeue_queued x left e e' = rw (e, requeue) (rw (e', requeue))

  pub requeue_unknown :
      in_flight_item job_id q.in_flight ≡ none
      → take_queued job_id q.memory_queues ≡ none
      → requeue name now job_id delay_sec q ≡ (false, q)
  unfolding requeue
  requeue_unknown e e' = rw (e, requeue) (rw (e', requeue))

module _ (job_id : ℕ) (q : Queues) where
  pub acknowledge_leased :
      is_some (in_flight_item job_id q.in_flight) ≡ true
      → acknowledge job_id q ≡ (true, record q { in_flight = drop_in_flight job_id q.in_flight })
  unfolding acknowledge
  acknowledge_leased e = rw (e, acknowledge)

  pub acknowledge_unknown :
      is_some (in_flight_item job_id q.in_flight) ≡ false → acknowledge job_id q ≡ (false, q)
  unfolding acknowledge
  acknowledge_unknown e = rw (e, acknowledge)

module _ (job_id : ℕ) (n : QueueType) (items : List QueueItem)
    (rest : List (QueueType × List QueueItem)) where
  pub take_queued_here :
      (x : QueueItem) (left : List QueueItem)
      → take_first (is_of_job job_id) items ≡ some (x, left)
      → take_queued job_id ((n, items) ∷ rest) ≡ some (x, (n, left) ∷ rest)
  unfolding take_queued
  take_queued_here x left e = rw (e, take_queued)

  pub take_queued_later :
      (x : QueueItem) (left : List (QueueType × List QueueItem))
      → take_first (is_of_job job_id) items ≡ none
      → take_queued job_id rest ≡ some (x, left)
      → take_queued job_id ((n, items) ∷ rest) ≡ some (x, (n, items) ∷ left)
  unfolding take_queued
  take_queued_later x left e e' = rw (e, take_queued) (rw (e', take_queued))

  pub take_queued_nowhere :
      take_first (is_of_job job_id) items ≡ none
      → take_queued job_id rest ≡ none
      → take_queued job_id ((n, items) ∷ rest) ≡ none
  unfolding take_queued
  take_queued_nowhere e e' = rw (e, take_queued) (rw (e', take_queued))

pub take_queued_empty : (job_id : ℕ) → take_queued job_id [] ≡ none
unfolding take_queued
take_queued_empty job_id = refl
