-- ===== src/Queue/Waiting.antt =====
-- How many items of a job wait in a queue.
use hire_ai.Prelude.{
  ℕ, suc, ◌≡◌, refl, ap, ◌∙◌, inl, inr, Bool, true, false, List, [], ◌∷◌, ◌++◌, count_where,
  is_some, ==_iff, if◌then◌else◌, Bool-cases, arith,
}
use hire_ai.Queue.{
  QueueType, QueueItem, ItemData, Queues, insert_item, sort_items, sorts_before, items_of,
  put_items, same_queue, has_queue, open_queue, enqueue, acknowledge, is_of_job, in_flight_item,
}
use hire_ai.Queue.Depth.{items_of-put_items}

abbrev pub waiting : QueueType → ℕ → Queues → ℕ
waiting name job_id q = count_where (is_of_job job_id) (items_of name q.memory_queues)

module _ (p : QueueItem → Bool) where
  count_where-insert_item :
      (x : QueueItem) (ys : List QueueItem)
      → count_where p (insert_item x ys) ≡ count_where p (x ∷ ys)
  unfolding insert_item
  count_where-insert_item x [] = refl
  count_where-insert_item x (y ∷ ys) = elim (Bool-cases (sorts_before x y)) [
    | inl e ↦ rw e refl
    | inr e ↦ rw e (ground (arith, count_where-insert_item x ys))
  ]

  count_where-sort_items : (xs : List QueueItem) → count_where p (sort_items xs) ≡ count_where p xs
  unfolding sort_items
  count_where-sort_items [] = refl
  count_where-sort_items (x ∷ xs) =
      count_where-insert_item x (sort_items xs)
      ∙ ap (λ n. if p x then suc n else n) (count_where-sort_items xs)

  count_where-last :
      (xs : List QueueItem) (x : QueueItem)
      → p x ≡ true
      → count_where p (xs ++ x ∷ []) ≡ suc (count_where p xs)
  count_where-last [] x h = rw h refl
  count_where-last (y ∷ ys) x h = ground (arith, count_where-last ys x h)

items_of-other :
    (name other : QueueType) (items : List QueueItem) (queues : List (QueueType × List QueueItem))
    → same_queue name other ≡ false
    → items_of other (put_items name items queues) ≡ items_of other queues
unfolding items_of put_items
items_of-other name other items [] apart = rw apart refl
items_of-other name other items ((n, old) ∷ rest) apart = elim (Bool-cases (same_queue n name)) [
  | inl e ↦ rw e (rw (moved n name other e apart) refl)
  | inr e ↦
      rw e (
        ap (λ r. if same_queue n other then old else r)
          (items_of-other name other items rest apart))
]
  where
    moved :
        (n name other : QueueType)
        → same_queue n name ≡ true
        → same_queue name other ≡ false
        → same_queue n other ≡ false
    moved n name other e h = ground (arith, e, h)

items_of-opened :
    (name other : QueueType) (queues : List (QueueType × List QueueItem))
    → items_of other (queues ++ (name, []) ∷ []) ≡ items_of other queues
unfolding items_of
items_of-opened name other [] = ground arith
items_of-opened name other ((n, old) ∷ rest) =
    ap (λ r. if same_queue n other then old else r) (items_of-opened name other rest)

waiting-open_queue :
    (name other : QueueType) (job_id : ℕ) (q : Queues)
    → waiting other job_id (open_queue name q) ≡ waiting other job_id q
unfolding open_queue
waiting-open_queue name other job_id q = elim (Bool-cases (has_queue name q.memory_queues)) [
  | inl e ↦ rw e refl
  | inr e ↦ rw e (ap (count_where (is_of_job job_id)) (items_of-opened name other q.memory_queues))
]

pub waiting-acknowledge :
    (name other : QueueType) (acked job_id : ℕ) (q : Queues)
    → waiting other job_id (acknowledge acked (open_queue name q)).1 ≡ waiting other job_id q
unfolding acknowledge
waiting-acknowledge name other acked job_id q =
    elim (Bool-cases (is_some (in_flight_item acked (open_queue name q).in_flight))) [
      | inl e ↦ rw (e, acknowledge) (waiting-open_queue name other job_id q)
      | inr e ↦ rw (e, acknowledge) (waiting-open_queue name other job_id q)
    ]

pub waiting-enqueue :
    (name : QueueType) (now job_id rank : ℕ) (item_data : ItemData) (q : Queues)
    → waiting name job_id (enqueue name now job_id rank item_data (open_queue name q))
      ≡ suc (waiting name job_id q)
unfolding enqueue
waiting-enqueue name now job_id rank item_data q =
    let p = open_queue name q in
    ap (count_where (is_of_job job_id)) (items_of-put_items name _ p.memory_queues)
    ∙ count_where-sort_items (is_of_job job_id) _
    ∙ count_where-last (is_of_job job_id) (items_of name p.memory_queues) _
        ((==_iff job_id job_id).1 refl)
    ∙ ap suc (waiting-open_queue name name job_id q)

pub waiting-enqueue_other :
    (name other : QueueType) (now job_id rank : ℕ) (item_data : ItemData) (q : Queues)
    → same_queue name other ≡ false
    → waiting other job_id (enqueue name now job_id rank item_data (open_queue name q))
      ≡ waiting other job_id q
unfolding enqueue
waiting-enqueue_other name other now job_id rank item_data q apart =
    ap (count_where (is_of_job job_id))
      (items_of-other name other _ (open_queue name q).memory_queues apart)
    ∙ waiting-open_queue name other job_id q
