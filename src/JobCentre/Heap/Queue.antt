-- ===== src/JobCentre/Heap/Queue.antt =====
-- 9-job-centre/job_queue.go: `heap.Push`, `heap.Pop` and `heap.Remove` on a queue of jobs.
use native.Mathlib.Nat.{le_refl}
use native.Mathlib.Decide.{ℕ_discrete}
use protohackers.Prelude.{
  true, ltb, some, ℕ, zero, suc, ◌+◌, ◌-◌, ◌≤◌, ◌<◌, ◌≡◌, ◌≢◌, ◌↔◌, ◌⊎◌, refl, sym, ap, ◌∙◌, subst,
  ◌==◌, arith, Bool-cases, inl, inr,
}
use protohackers.JobCentre.Heap.{
  Heap, swap, push_back, pop_back, down, fix_at, heap_push, heap_pop, remove_at, heap_remove,
}
use protohackers.JobCentre.Heap.Index.{IsIndexed, Holds, swap-IsIndexed, Holds-swap}
use protohackers.JobCentre.Heap.Order.{IsHeap, IsUp, IsHole, root_lem}
use protohackers.JobCentre.Heap.Sift.{IsMoved, IsMoved-refl, len-swap, up_lem, down_lem, fix_at_lem}

-- A queue between two calls.
pub record IsQueue (pri : ℕ → ℕ) (h : Heap) : Type 0 where
  pub indexed : IsIndexed h
  pub heap : IsHeap pri h.len h

-- Without the last element.
abbrev shorter : Heap → Heap
shorter h = record h { len = h.len - 1 }

shorter-IsIndexed : (h : Heap) → IsIndexed h → IsIndexed (shorter h)
shorter-IsIndexed h v = record { places = λ k hk. v.places k (omega arith) }

Holds-shorter :
    (h : Heap) (q : ℕ)
    → IsIndexed h
    → 0 < h.len
    → Holds (shorter h) q ↔ (Holds h q × (q ≢ h.at (h.len - 1)))
Holds-shorter h q v some_ = (
  λ a. (
    (omega (arith, a.0), a.1),
    λ e. absurd (omega (arith, a.0, v.places (h.len - 1) (omega arith), ap h.index e)),
  ),
  λ (a, ne). ground arith,
)

push_back-IsIndexed : (p : ℕ) (h : Heap) → IsIndexed h → ¬ Holds h p → IsIndexed (push_back p h)
unfolding push_back
push_back-IsIndexed p h v new = record { places = λ k hk. ground (arith, v.places k, not_new k) }
  where
    not_new : (k : ℕ) → k < h.len → h.at k ≢ p
    not_new k hk e = new (ground (arith, v.places k hk))

Holds-push_back :
    (p : ℕ) (h : Heap) (q : ℕ) → ¬ Holds h p → Holds (push_back p h) q ↔ ((q ≡ p) ⊎ Holds h q)
unfolding push_back
Holds-push_back p h q new = (
  λ a. elim (ℕ_discrete q p) [ yes e ↦ inl e | no ne ↦ inr (ground arith) ],
  λ a. elim a [ inl e ↦ ground arith | inr held ↦ kept held (other held) ],
)
  where
    other : Holds h q → q ≢ p
    other held e = new (subst (Holds h) e held)

    kept : Holds h q → q ≢ p → Holds (push_back p h) q
    kept held ne = ground arith

len-push_back : (p : ℕ) (h : Heap) → (push_back p h).len ≡ h.len + 1
unfolding push_back
len-push_back p h = refl

-- A call took the job at the place `i` of `h`, and no other, and left a queue.
abbrev pub IsTaken : (ℕ → ℕ) → ℕ → Heap → Heap × ℕ → Type 0
IsTaken pri i h (h', p) =
    (p ≡ h.at i) × IsQueue pri h' × ((q : ℕ) → Holds h' q ↔ (Holds h q × (q ≢ h.at i)))

pub held_at : (h : Heap) → IsIndexed h → (k : ℕ) → k < h.len → Holds h (h.at k)
held_at h v k lt = ground (arith, v.places k lt)

module _ (pri : ℕ → ℕ) where
  push_back-IsUp :
      (p : ℕ) (h : Heap)
      → IsHeap pri h.len h
      → IsUp pri ((push_back p h).len - 1) (push_back p h).len (push_back p h)
  unfolding push_back
  push_back-IsUp p h v = record {
    others = λ k hk hn ne. ground (arith, v.ordered k hk);
    around = λ k hk hn e pos'. absurd (omega arith);
  }

  -- Push of a job that is not in the queue adds it and no other, and leaves a heap in which every job
  -- knows its place.
  pub heap_push_lem :
      (p : ℕ) (h : Heap)
      → IsQueue pri h
      → ¬ Holds h p
      → IsQueue pri (heap_push pri p h)
        × ((q : ℕ) → Holds (heap_push pri p h) q ↔ ((q ≡ p) ⊎ Holds h q))
  unfolding heap_push
  heap_push_lem p h v new =
      let h' = push_back p h in
      let (heap, moved) =
        up_lem pri h'.len (h'.len - 1) h'.len h' (omega (arith, len-push_back p h))
          (omega (arith, len-push_back p h)) (le_refl _) (push_back-IsIndexed p h v.indexed new)
          (push_back-IsUp p h v.heap) in
      (
        record {
          indexed = moved.indexed;
          heap = subst (λ k. IsHeap pri k (heap_push pri p h)) (sym moved.len) heap;
        },
        λ q.
            let (to, from) = Holds-push_back p h q new in
            (λ a. to (moved.from q a), λ a. moved.to q (from a)),
      )

  -- What is left when the last place holds what has to go.
  taken_lem :
      (h h' : Heap)
      → IsIndexed h
      → 0 < h.len
      → IsMoved (h.len - 1) h h'
      → IsHeap pri (h.len - 1) h'
      → (p : ℕ) → h'.at (h.len - 1) ≡ p
      → IsQueue pri (shorter h') × ((q : ℕ) → Holds (shorter h') q ↔ (Holds h q × (q ≢ p)))
  taken_lem h h' v some_ moved heap p e = (
    record {
      indexed = shorter-IsIndexed h' moved.indexed;
      heap =
          subst (λ k. IsHeap pri k (shorter h')) (ap (λ k. k - 1) (sym moved.len))
            (record { ordered = heap.ordered });
    },
    λ q.
        let (to, from) = Holds-shorter h' q moved.indexed (omega (arith, moved.len)) in
        let last : h'.at (h'.len - 1) ≡ p = (ap (λ k. h'.at (k - 1)) moved.len ∙ e) in
        (
          λ a. (moved.from q (to a).0, λ e'. (to a).1 (e' ∙ sym last)),
          λ (a, ne). from (moved.to q a, λ e'. ne (e' ∙ last)),
        ),
  )

  take_last :
      (i : ℕ) (h : Heap) → IsQueue pri h → i < h.len → h.len - 1 ≡ i → IsTaken pri i h (pop_back h)
  unfolding pop_back
  take_last i h v lt e =
      let (queue, holds) =
        taken_lem h h v.indexed (omega arith) (IsMoved-refl (h.len - 1) h v.indexed)
          (record { ordered = λ k hk hn. v.heap.ordered k hk (omega arith) }) (h.at i)
          (ap h.at e) in
      (ap h.at e, queue, holds)

  at-swap : (i j : ℕ) (h : Heap) → (swap i j h).at j ≡ h.at i
  unfolding swap
  at-swap i j h = ground arith

  swap_out :
      (i : ℕ) (h : Heap)
      → IsHeap pri h.len h
      → i < h.len - 1
      → IsHole pri i (h.len - 1) (swap i (h.len - 1) h)
  unfolding swap
  swap_out i h v lt = record {
    others = λ k hk hn ne ne'. ground (arith, v.ordered k hk);
    around = λ k hk hn e hi. ground (arith, v.ordered k hk, v.ordered i hi);
  }

  -- The place `i` is swapped with the last, and what is left is mended.
  removed_lem :
      (i : ℕ) (h h' : Heap)
      → IsQueue pri h
      → i < h.len
      → IsHeap pri (h.len - 1) h'
      → IsMoved (h.len - 1) (swap i (h.len - 1) h) h'
      → IsTaken pri i h (pop_back h')
  unfolding pop_back swap
  removed_lem i h h' v lt heap moved =
      let n = h.len - 1 in
      let last : h'.at n ≡ h.at i = (moved.rest n (le_refl n) ∙ at-swap i n h) in
      let (queue, holds) =
        taken_lem (swap i n h) h' (swap-IsIndexed i n h v.indexed lt (omega arith))
          (omega (arith, len-swap i n h)) moved heap (h.at i) last in
      (
        ap (λ k. h'.at (k - 1)) (moved.len ∙ len-swap i n h) ∙ last,
        queue,
        λ q.
            let (to, from) = Holds-swap i n h v.indexed lt (omega arith) q in
            (λ a. (from ((holds q).0 a).0, ((holds q).0 a).1), λ (a, ne). (holds q).1 (to a, ne)),
      )

  sift_lem :
      (f n : ℕ) (h : Heap)
      → n ≤ f
      → n ≤ h.len
      → IsIndexed h
      → (0 < n → IsHole pri 0 n h)
      → IsHeap pri n (down pri f 0 n h).0 × IsMoved n h (down pri f 0 n h).0
  unfolding down
  sift_lem zero zero h lf ln v hole =
      (record { ordered = λ k hk hn. absurd (omega arith) }, IsMoved-refl 0 h v)
  sift_lem (suc f) zero h lf ln v hole =
      (record { ordered = λ k hk hn. absurd (omega arith) }, IsMoved-refl 0 h v)
  sift_lem f (suc n) h lf ln v hole =
      let around = hole (omega arith) in
      let (heap, moved, le) = down_lem pri f 0 (suc n) h (omega arith) (omega arith) ln v (record {
        others = λ k hk hn ne. around.others k hk hn (λ e. absurd (omega arith)) ne;
        around = λ k hk hn e lt. absurd (omega arith);
      }) in
      (heap, moved)

  -- Pop of a queue with a job takes the job at the root, which no job of the queue exceeds in priority,
  -- and no other, and leaves a heap in which every job knows its place.
  pub heap_pop_lem :
      (h : Heap)
      → IsQueue pri h
      → 0 < h.len
      → IsTaken pri 0 h (heap_pop pri h)
        × Holds h (h.at 0)
        × ((q : ℕ) → Holds h q → pri q ≤ pri (h.at 0))
  unfolding heap_pop
  heap_pop_lem h v some_ =
      let n = h.len - 1 in
      let (heap, moved) =
        sift_lem h.len n (swap 0 n h) (omega arith) (omega (arith, len-swap 0 n h))
          (swap-IsIndexed 0 n h v.indexed some_ (omega arith)) (λ lt. swap_out 0 h v.heap lt) in
      let taken = removed_lem 0 h (down pri h.len 0 n (swap 0 n h)).0 v some_ heap moved in
      (
        taken,
        held_at h v.indexed 0 some_,
        λ q (lt, e).
            subst (λ p. pri p ≤ pri (h.at 0)) e
              (root_lem pri h.len h v.heap h.len (h.index q) (omega arith) lt),
      )

  remove_at_lem :
      (i : ℕ) (h : Heap) → IsQueue pri h → i < h.len → IsTaken pri i h (remove_at pri i h)
  remove_at_lem i h v lt = elim (Bool-cases ((h.len - 1) == i)) [
    | inl last ↦ rw last (take_last i h v lt (ground arith))
    | inr other ↦
        let n = h.len - 1 in
        let lt' : i < n = (ground arith) in
        let (heap, moved) =
          fix_at_lem pri h.len i n (swap i n h) (omega arith) lt' (omega (arith, len-swap i n h))
            (swap-IsIndexed i n h v.indexed lt (omega arith)) (swap_out i h v.heap lt') in
        let taken =
          removed_lem i h (fix_at pri i (down pri h.len i n (swap i n h))) v lt heap moved in
        rw other taken
  ]

  -- Remove of a place of a queue takes the job there and no other, and leaves a heap in which every job
  -- knows its place.
  pub heap_remove_lem :
      (i : ℕ) (h : Heap)
      → IsQueue pri h
      → i < h.len
      → (r : Heap × ℕ) × (heap_remove pri i h ≡ some r) × IsTaken pri i h r
  unfolding heap_remove
  heap_remove_lem i h v lt =
      let inside : ltb i h.len ≡ true = (ground arith) in
      (remove_at pri i h, rw inside refl, remove_at_lem i h v lt)
