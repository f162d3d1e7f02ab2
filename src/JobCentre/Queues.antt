-- ===== src/JobCentre/Queues.antt =====
-- 9-job-centre/job_queue.go, the type `JobQueues`. Memory is a function from addresses to jobs, with the
-- next free address; a map is a function. A call holds the lock, so each is one step, and a round of
-- `Pop` between two waits is one. A job's payload is the text of its JSON value.
pub mod Push
pub mod Remove
pub mod Pop
use protohackers.Prelude.{
  ℕ, zero, suc, ◌+◌, Bool, true, false, List, [], ◌∷◌, ◌++◌, Option, none, some, Result, ok, err,
  Bytes, bytes_eq, ltb, ◌==◌, if◌then◌else◌,
}
use protohackers.JobCentre.Heap.{Heap, empty_heap, heap_push, heap_pop, heap_remove}

pub record Job : Type 0 where
  pub queue : Bytes
  pub job_id : ℕ
  pub job : Bytes
  pub priority : ℕ

pub record JobQueues : Type 0 where
  pub job_queues : Bytes → Option Heap
  pub job_locators : ℕ → Option (Bytes × ℕ)
  pub notifiers : List ℕ  -- the channels that calls of `Pop` wait at
  pub closed : List ℕ  -- the channels that were closed
  pub made : ℕ  -- the number of channels so far
  pub job_at : ℕ → Job
  pub next : ℕ

abbrev no_job : Job
no_job = record { queue = []; job_id = 0; job = []; priority = 0 }

-- `NewJobQueues`
abbrev pub new_job_queues : JobQueues
new_job_queues = record {
  job_queues = λ n. none;
  job_locators = λ i. none;
  notifiers = [];
  closed = [];
  made = 0;
  job_at = λ p. no_job;
  next = 0;
}

abbrev pub pri : JobQueues → ℕ → ℕ
pri jq p = (jq.job_at p).priority

abbrev pub or_empty : Option Heap → Heap
or_empty none = empty_heap
or_empty (some h) = h

-- `jj := &job{Job: j}`
abbrev pub allocate : Job → JobQueues → JobQueues
allocate j jq = record jq {
  job_at = λ q. if q == jq.next then j else jq.job_at q;
  next = jq.next + 1;
}

abbrev pub put_queue : Bytes → Heap → JobQueues → Bytes → Option Heap
put_queue n h jq m = if bytes_eq m n then some h else jq.job_queues m

unfoldable pub push : Job → JobQueues → JobQueues
push j jq =
    let jq' = allocate j jq in
    let queue = heap_push (pri jq') jq.next (or_empty (jq.job_queues j.queue)) in
    record jq' {
      job_queues = put_queue j.queue queue jq;
      job_locators = λ i. if i == j.job_id then some (j.queue, jq.next) else jq.job_locators i;
      closed = jq.closed ++ jq.notifiers;
      notifiers = [];
    }

-- `nil_queue` is the panic of `heap.Remove` on a queue that is not in the map, `out_of_range` its panic on
-- a place that the queue does not have.
pub data Error : Type 0 where
  job_queue_empty job_queue_not_found nil_queue out_of_range : Error

abbrev pub delete_locator : ℕ → JobQueues → ℕ → Option (Bytes × ℕ)
delete_locator id jq i = if i == id then none else jq.job_locators i

abbrev pub after_heap : ℕ → Bytes → JobQueues → Option (Heap × ℕ) → Result Error JobQueues
after_heap id n jq none = err out_of_range
after_heap id n jq (some (h, p)) =
    ok (record jq { job_queues = put_queue n h jq; job_locators = delete_locator id jq })

abbrev pub remove_from : ℕ → Bytes → ℕ → JobQueues → Option Heap → Result Error JobQueues
remove_from id n p jq none = err nil_queue
remove_from id n p jq (some h) = after_heap id n jq (heap_remove (pri jq) (h.index p) h)

abbrev pub remove_located : ℕ → JobQueues → Option (Bytes × ℕ) → Result Error JobQueues
remove_located id jq none = err job_queue_not_found
remove_located id jq (some (n, p)) = remove_from id n p jq (jq.job_queues n)

unfoldable pub remove : ℕ → JobQueues → Result Error JobQueues
remove id jq = remove_located id jq (jq.job_locators id)

-- The keys of `validQueues`.
unfoldable pub valid_queues : List Bytes → JobQueues → List Bytes
valid_queues [] jq = []
valid_queues (n ∷ ns) jq = add_valid n (jq.job_queues n) (valid_queues ns jq)
  where
    add_valid : Bytes → Option Heap → List Bytes → List Bytes
    add_valid n none ns = ns
    add_valid n (some h) ns = n ∷ ns

-- One round of the loop over `validQueues`, with `highestQueue` and `highestPriority`.
abbrev pub compare_queue : JobQueues → Bytes → Option Heap → Option Bytes × ℕ → Option Bytes × ℕ
compare_queue jq n none best = best
compare_queue jq n (some h) best =
    if h.len == 0
    then best
    else if ltb best.1 (pri jq (h.at 0))
    then (some n, pri jq (h.at 0))
    else best

unfoldable pub highest : JobQueues → List Bytes → Option Bytes × ℕ → Option Bytes × ℕ
highest jq [] best = best
highest jq (n ∷ ns) best = highest jq ns (compare_queue jq n (jq.job_queues n) best)

-- What a round of `Pop` ends with.
pub data Popped : Type 0 where
  popped : Job → Popped
  queue_empty cancelled : Popped
  waits : ℕ → Popped

abbrev pub pop_queue : Bytes → JobQueues → Option Heap → JobQueues × Popped
pop_queue n jq none = (jq, queue_empty)
pop_queue n jq (some h) =
    let (h', p) = heap_pop (pri jq) h in
    let j = jq.job_at p in
    (
      record jq { job_queues = put_queue n h' jq; job_locators = delete_locator j.job_id jq },
      popped j,
    )

abbrev pub pop_highest : Bool → JobQueues → Option Bytes → JobQueues × Popped
pop_highest wait jq (some n) = pop_queue n jq (jq.job_queues n)
pop_highest wait jq none =
    if wait
    then (record jq { notifiers = jq.notifiers ++ jq.made ∷ []; made = jq.made + 1 }, waits jq.made)
    else (jq, queue_empty)

-- A round of `Pop`, with the keys of `validQueues` in the order in which the loop meets them, which Go
-- leaves open, and whether the context is done.
unfoldable pub pop_round : Bool → List Bytes → Bool → JobQueues → JobQueues × Popped
pop_round is_done order wait jq =
    if is_done then (jq, cancelled) else pop_highest wait jq (highest jq order (none, 0)).0
