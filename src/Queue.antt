-- ===== src/Queue.antt =====
-- queue/redis_queue.py: the in-memory queues and the in-flight tracker, which all the queues share.
-- `_memory_queues` and `_in_flight` are dictionaries in insertion order. Instants are ticks of
-- `time.time()`, given to each operation; priorities are 0 or more (api/v1/jobs/router.py).
mod Cases
mod Tests
pub mod Order
mod Keeps
pub mod Steps
pub mod Depth
pub mod Waiting
use hire_ai.Prelude.{
  ℕ, ◌+◌, String, Bool, true, false, ◌&&◌, ◌||◌, Option, none, some, List, [], ◌∷◌, ◌++◌, length,
  find, filter, ltb, leb, ◌==◌, if◌then◌else◌, is_some,
}

-- `QueueType` of models/enums.py; a queue is named by a member's value.
pub data QueueType : Type 0 where
  default priority long_running retry dead_letter sales marketing analytics : QueueType

abbrev pub queue_code : QueueType → ℕ
queue_code default = 0
queue_code priority = 1
queue_code long_running = 2
queue_code retry = 3
queue_code dead_letter = 4
queue_code sales = 5
queue_code marketing = 6
queue_code analytics = 7

abbrev pub same_queue : QueueType → QueueType → Bool
same_queue a b = queue_code a == queue_code b

-- The dictionaries that the callers pass as `data`.
pub data ItemData : Type 0 where
  job_type_data : String → ItemData
  failed_data : ItemData
  retry_data : ℕ → ItemData
  replayed_data : ItemData

pub record QueueItem : Type 0 where
  pub job_id : ℕ
  pub priority : ℕ
  pub item_data : ItemData
  pub queue_type : QueueType
  pub enqueued_at : ℕ
  pub invisible_until : ℕ
  pub attempts : ℕ

-- The class variables of `RedisQueue`.
pub record Queues : Type 0 where
  pub memory_queues : List (QueueType × List QueueItem)
  pub in_flight : List (ℕ × QueueItem)

-- The order of the sort key `(-x.priority, x.enqueued_at)`.
unfoldable pub sorts_before : QueueItem → QueueItem → Bool
sorts_before x y =
    ltb y.priority x.priority || ((x.priority == y.priority) && leb x.enqueued_at y.enqueued_at)

unfoldable pub insert_item : QueueItem → List QueueItem → List QueueItem
insert_item x [] = x ∷ []
insert_item x (y ∷ ys) = if sorts_before x y then x ∷ y ∷ ys else y ∷ insert_item x ys

-- `queue.sort(key=…)`, a stable sort.
unfoldable pub sort_items : List QueueItem → List QueueItem
sort_items [] = []
sort_items (x ∷ xs) = insert_item x (sort_items xs)

-- `_memory_queues[name]`, and `[]` for a name that is not there, as in `get_depth`.
unfoldable pub items_of : QueueType → List (QueueType × List QueueItem) → List QueueItem
items_of name [] = []
items_of name ((n, items) ∷ rest) = if same_queue n name then items else items_of name rest

unfoldable pub put_items :
    QueueType
    → List QueueItem
    → List (QueueType × List QueueItem)
    → List (QueueType × List QueueItem)
put_items name items [] = (name, items) ∷ []
put_items name items ((n, old) ∷ rest) =
    if same_queue n name then (n, items) ∷ rest else (n, old) ∷ put_items name items rest

abbrev pub has_queue : QueueType → List (QueueType × List QueueItem) → Bool
has_queue name [] = false
has_queue name ((n, items) ∷ rest) = same_queue n name || has_queue name rest

-- `RedisQueue(name)`
unfoldable pub open_queue : QueueType → Queues → Queues
open_queue name q =
    if has_queue name q.memory_queues
    then q
    else record q { memory_queues = q.memory_queues ++ (name, []) ∷ [] }

-- `enqueue`
unfoldable pub enqueue : QueueType → (now : ℕ) → ℕ → (rank : ℕ) → ItemData → Queues → Queues
enqueue name now job_id rank item_data q =
    let item : QueueItem = record {
      job_id = job_id;
      priority = rank;
      item_data = item_data;
      queue_type = name;
      enqueued_at = now;
      invisible_until = 0;
      attempts = 0;
    } in
    record q {
      memory_queues =
          put_items name (sort_items (items_of name q.memory_queues ++ item ∷ [])) q.memory_queues;
    }

-- A loop that takes the first item that passes a test out of a list.
unfoldable pub take_first :
    (QueueItem → Bool) → List QueueItem → Option (QueueItem × List QueueItem)
take_first p [] = none
take_first p (x ∷ xs) =
    let rest = take_first p xs in
    if p x then some (x, xs) else elim rest [ none ↦ none | some (y, ys) ↦ some (y, x ∷ ys) ]

abbrev pub is_visible : (now : ℕ) → QueueItem → Bool
is_visible now x = leb x.invisible_until now

abbrev pub is_of_job : ℕ → QueueItem → Bool
is_of_job job_id x = x.job_id == job_id

-- `_in_flight[job_id]`
unfoldable pub in_flight_item : ℕ → List (ℕ × QueueItem) → Option QueueItem
in_flight_item job_id [] = none
in_flight_item job_id ((j, x) ∷ rest) = if j == job_id then some x else in_flight_item job_id rest

-- `_in_flight[job_id] = item`
unfoldable pub put_in_flight : ℕ → QueueItem → List (ℕ × QueueItem) → List (ℕ × QueueItem)
put_in_flight job_id item [] = (job_id, item) ∷ []
put_in_flight job_id item ((j, x) ∷ rest) =
    if j == job_id then (j, item) ∷ rest else (j, x) ∷ put_in_flight job_id item rest

-- `del _in_flight[job_id]`
unfoldable pub drop_in_flight : ℕ → List (ℕ × QueueItem) → List (ℕ × QueueItem)
drop_in_flight job_id [] = []
drop_in_flight job_id ((j, x) ∷ rest) =
    if j == job_id then rest else (j, x) ∷ drop_in_flight job_id rest

abbrev pub lease : (now visibility_timeout_sec : ℕ) → QueueItem → QueueItem
lease now visibility_timeout_sec x = record x {
  invisible_until = now + visibility_timeout_sec;
  attempts = x.attempts + 1;
}

-- `dequeue`; the dictionary that it returns has the fields of the item.
unfoldable pub dequeue :
    QueueType → (now visibility_timeout_sec : ℕ) → Queues → Option QueueItem × Queues
dequeue name now visibility_timeout_sec q =
    elim (take_first (is_visible now) (items_of name q.memory_queues)) [
      | none ↦ (none, q)
      | some (x, rest) ↦ (
        some (lease now visibility_timeout_sec x),
        record {
          memory_queues = put_items name rest q.memory_queues;
          in_flight = put_in_flight x.job_id (lease now visibility_timeout_sec x) q.in_flight;
        },
      )
    ]

-- `acknowledge`
unfoldable pub acknowledge : ℕ → Queues → Bool × Queues
acknowledge job_id q =
    if is_some (in_flight_item job_id q.in_flight)
    then (true, record q { in_flight = drop_in_flight job_id q.in_flight })
    else (false, q)

-- The search of `requeue` through all the queues.
unfoldable pub take_queued :
    ℕ → List (QueueType × List QueueItem) → Option (QueueItem × List (QueueType × List QueueItem))
take_queued job_id [] = none
take_queued job_id ((n, items) ∷ rest) =
    let others = take_queued job_id rest in
    elim (take_first (is_of_job job_id) items) [
      | some (x, left) ↦ some (x, (n, left) ∷ rest)
      | none ↦ elim others [ none ↦ none | some (x, rest') ↦ some (x, (n, items) ∷ rest') ]
    ]

-- The item goes to the queue that `requeue` is called on, made visible after the delay.
abbrev pub put_back : QueueType → (visible_at : ℕ) → QueueItem → Queues → Queues
put_back name visible_at x q = record q {
  memory_queues =
      put_items name
        (sort_items
          (items_of name q.memory_queues ++ record x { invisible_until = visible_at } ∷ []))
        q.memory_queues;
}

-- `requeue`
unfoldable pub requeue : QueueType → (now : ℕ) → ℕ → (delay_sec : ℕ) → Queues → Bool × Queues
requeue name now job_id delay_sec q = elim (in_flight_item job_id q.in_flight) [
  | some x ↦ (
    true,
    put_back name (now + delay_sec) x (record q { in_flight = drop_in_flight job_id q.in_flight }),
  )
  | none ↦ elim (take_queued job_id q.memory_queues) [
    | none ↦ (false, q)
    | some (x, queues) ↦
        (true, put_back name (now + delay_sec) x (record q { memory_queues = queues }))
  ]
]

-- The loop of `check_visibility_timeouts` over a snapshot of the in-flight items.
unfoldable pub requeue_expired :
    QueueType → (now later : ℕ) → List (ℕ × QueueItem) → Queues → List ℕ × Queues
requeue_expired name now later [] q = ([], q)
requeue_expired name now later ((job_id, x) ∷ rest) q =
    let (expired, q') =
      requeue_expired name now later rest
        (if leb x.invisible_until now then (requeue name later job_id 0 q).1 else q) in
    (if leb x.invisible_until now then job_id ∷ expired else expired, q')

-- `check_visibility_timeouts`; `requeue` reads the clock again.
unfoldable pub check_visibility_timeouts : QueueType → (now later : ℕ) → Queues → List ℕ × Queues
check_visibility_timeouts name now later q = requeue_expired name now later q.in_flight q

-- `get_depth`
unfoldable pub get_depth : QueueType → Queues → ℕ
get_depth name q = length (items_of name q.memory_queues)

-- `get_in_flight_count`
unfoldable pub get_in_flight_count : QueueType → Queues → ℕ
get_in_flight_count name q = length (filter (λ (j, x). same_queue x.queue_type name) q.in_flight)

-- `clear_all`
unfoldable pub clear_all : Queues → Queues
clear_all q = record { memory_queues = []; in_flight = [] }
