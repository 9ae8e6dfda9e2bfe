-- ===== src/Queue/Depth.antt =====
-- How the operations change the depth of a queue.
use hire_ai.Prelude.{
  ℕ, suc, ◌≡◌, refl, ap, ◌∙◌, inl, inr, true, List, [], ◌∷◌, ◌++◌, length, length-append,
  if◌then◌else◌, Bool-cases, arith,
}
use hire_ai.Queue.{
  QueueType, QueueItem, ItemData, Queues, insert_item, sort_items, sorts_before, items_of,
  put_items, same_queue, has_queue, open_queue, enqueue, get_depth,
}

length-insert_item :
    (x : QueueItem) (ys : List QueueItem) → length (insert_item x ys) ≡ suc (length ys)
unfolding insert_item
length-insert_item x [] = refl
length-insert_item x (y ∷ ys) = elim (Bool-cases (sorts_before x y)) [
  | inl e ↦ rw e refl
  | inr e ↦ rw e (ap suc (length-insert_item x ys))
]

pub length-sort_items : (xs : List QueueItem) → length (sort_items xs) ≡ length xs
unfolding sort_items
length-sort_items [] = refl
length-sort_items (x ∷ xs) = length-insert_item x (sort_items xs) ∙ ap suc (length-sort_items xs)

same_refl : (name : QueueType) → same_queue name name ≡ true
same_refl name = ground arith

pub items_of-put_items :
    (name : QueueType) (items : List QueueItem) (queues : List (QueueType × List QueueItem))
    → items_of name (put_items name items queues) ≡ items
unfolding items_of put_items
items_of-put_items name items [] = rw (same_refl name) refl
items_of-put_items name items ((n, old) ∷ rest) = elim (Bool-cases (same_queue n name)) [
  | inl e ↦ rw (e, e) refl
  | inr e ↦ rw (e, e) (items_of-put_items name items rest)
]

pub get_depth-enqueue :
    (name : QueueType) (now job_id rank : ℕ) (item_data : ItemData) (q : Queues)
    → get_depth name (enqueue name now job_id rank item_data q) ≡ suc (get_depth name q)
unfolding get_depth enqueue
get_depth-enqueue name now job_id rank item_data q =
    ap length (items_of-put_items name _ q.memory_queues)
    ∙ length-sort_items (items_of name q.memory_queues ++ _ ∷ [])
    ∙ length-append (items_of name q.memory_queues) (_ ∷ [])
    ∙ omega arith

items_of-append :
    (name : QueueType) (queues : List (QueueType × List QueueItem))
    → items_of name (queues ++ (name, []) ∷ []) ≡ items_of name queues
unfolding items_of
items_of-append name [] = rw (same_refl name) refl
items_of-append name ((n, old) ∷ rest) =
    ap (λ r. if same_queue n name then old else r) (items_of-append name rest)

pub get_depth-open_queue :
    (name : QueueType) (q : Queues) → get_depth name (open_queue name q) ≡ get_depth name q
unfolding get_depth open_queue
get_depth-open_queue name q = elim (Bool-cases (has_queue name q.memory_queues)) [
  | inl e ↦ rw e refl
  | inr e ↦ rw e (ap length (items_of-append name q.memory_queues))
]
