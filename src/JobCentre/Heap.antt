-- ===== src/JobCentre/Heap.antt =====
-- 9-job-centre/job_queue.go, the type `jobQueue`, and `container/heap` as it runs over it. A `*job` is
-- its address, a number. The slice is its backing array and its length, and the `index` fields of all jobs
-- are a function of the address. `pri` is the priority of the job at an address.
pub mod Index
pub mod Order
pub mod Sift
pub mod Queue
use protohackers.Prelude.{
  ℕ, zero, suc, ◌+◌, ◌-◌, ◌*◌, ◌/◌, Bool, true, false, ◌&&◌, ◌||◌, not, Option, none, some, ltb,
  leb, ◌==◌, if◌then◌else◌,
}

pub record Heap : Type 0 where
  pub at : ℕ → ℕ
  pub len : ℕ
  pub index : ℕ → ℕ

abbrev pub empty_heap : Heap
empty_heap = record { at = λ i. 0; len = 0; index = λ p. 0 }

-- `Swap`: the two elements, and then the `index` of each.
unfoldable pub swap : ℕ → ℕ → Heap → Heap
swap i j h = record h {
  at = λ k. if k == i then h.at j else if k == j then h.at i else h.at k;
  index = λ p. if p == h.at i then j else if p == h.at j then i else h.index p;
}

-- `Push` of the queue, which appends.
unfoldable pub push_back : ℕ → Heap → Heap
push_back p h = record {
  at = λ k. if k == h.len then p else h.at k;
  len = h.len + 1;
  index = λ q. if q == p then h.len else h.index q;
}

-- `Pop` of the queue: the last element. Its `index` becomes -1, which nothing reads: it keeps its value
-- here.
unfoldable pub pop_back : Heap → Heap × ℕ
pop_back h = (record h { len = h.len - 1 }, h.at (h.len - 1))

module _ (pri : ℕ → ℕ) where
  abbrev pub less : Heap → ℕ → ℕ → Bool
  less h i j = ltb (pri (h.at j)) (pri (h.at i))

  -- `heap.up`. The place is at least halved, so its number and one is fuel enough.
  unfoldable pub up : ℕ → ℕ → Heap → Heap
  up zero j h = h
  up (suc f) j h =
      let i = (j - 1) / 2 in
      let on = up f i (swap i j h) in if (i == j) || not (less h j i) then h else on

  -- The child that `heap.down` compares: the second if it is there and less.
  abbrev pub child : Heap → ℕ → ℕ → ℕ
  child h i n = if ltb (2 * i + 2) n && less h (2 * i + 2) (2 * i + 1) then 2 * i + 2 else 2 * i + 1

  -- `heap.down`, with the place where it ends. The place grows, so the length is fuel enough.
  unfoldable pub down : ℕ → ℕ → ℕ → Heap → Heap × ℕ
  down zero i n h = (h, i)
  down (suc f) i n h =
      let j = child h i n in
      let on = down f j n (swap i j h) in
      if leb n (2 * i + 1) || not (less h j i) then (h, i) else on

  unfoldable pub heap_push : ℕ → Heap → Heap
  heap_push p h = let h' = push_back p h in up h'.len (h'.len - 1) h'

  -- `heap.Pop`, of a queue that is not empty.
  unfoldable pub heap_pop : Heap → Heap × ℕ
  heap_pop h = let n = h.len - 1 in pop_back (down h.len 0 n (swap 0 n h)).0

  -- `heap.Remove`
  abbrev pub fix_at : ℕ → Heap × ℕ → Heap
  fix_at i (h, i') = if ltb i i' then h else up (i + 1) i h

  abbrev pub remove_at : ℕ → Heap → Heap × ℕ
  remove_at i h =
      let n = h.len - 1 in
      let sifted = pop_back (fix_at i (down h.len i n (swap i n h))) in
      if n == i then pop_back h else sifted

  -- A place behind the end is an index out of range in `Swap`, which panics.
  unfoldable pub heap_remove : ℕ → Heap → Option (Heap × ℕ)
  heap_remove i h = if ltb i h.len then some (remove_at i h) else none
