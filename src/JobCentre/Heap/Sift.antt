-- ===== src/JobCentre/Heap/Sift.antt =====
-- 9-job-centre/job_queue.go under `container/heap`: the loops `up` and `down`.
use native.Mathlib.Nat.{le_refl}
use protohackers.Prelude.{
  ℕ, zero, suc, ◌+◌, ◌*◌, ◌≤◌, ◌<◌, ◌≡◌, refl, ◌∙◌, true, false, ◌||◌, not, ltb, leb, ◌==◌, arith,
  Bool-cases, inl, inr, lt→ltb,
}
use protohackers.JobCentre.Heap.{Heap, swap, less, child, up, down, fix_at}
use protohackers.JobCentre.Heap.Index.{IsIndexed, Holds, swap-IsIndexed, Holds-swap}
use protohackers.JobCentre.Heap.Order.{
  parent, IsHeap, IsUp, IsDown, IsHole, IsUp-stop, IsUp-swap, child-IsBest, no_child, stop_at,
  swap_at, hole-IsUp, hole_stop, hole_swap,
}

-- `h'` holds the jobs of `h`, each knows its place, and from the place `n` on nothing has moved.
pub record IsMoved (n : ℕ) (h h' : Heap) : Type 0 where
  pub len : h'.len ≡ h.len
  pub indexed : IsIndexed h'
  pub to : (p : ℕ) → Holds h p → Holds h' p
  pub from : (p : ℕ) → Holds h' p → Holds h p
  pub rest : (k : ℕ) → n ≤ k → h'.at k ≡ h.at k

pub IsMoved-refl : (n : ℕ) (h : Heap) → IsIndexed h → IsMoved n h h
IsMoved-refl n h v = record {
  len = refl;
  indexed = v;
  to = λ p q. q;
  from = λ p q. q;
  rest = λ k le. refl;
}

IsMoved-trans : {n : ℕ} {h h' h'' : Heap} → IsMoved n h h' → IsMoved n h' h'' → IsMoved n h h''
IsMoved-trans a b = record {
  len = b.len ∙ a.len;
  indexed = b.indexed;
  to = λ p q. b.to p (a.to p q);
  from = λ p q. a.from p (b.from p q);
  rest = λ k le. b.rest k le ∙ a.rest k le;
}

rest-swap : (i j n : ℕ) (h : Heap) (k : ℕ) → i < n → j < n → n ≤ k → (swap i j h).at k ≡ h.at k
unfolding swap
rest-swap i j n h k hi hj le = ground arith

pub len-swap : (i j : ℕ) (h : Heap) → (swap i j h).len ≡ h.len
unfolding swap
len-swap i j h = refl

swap-IsMoved :
    (i j n : ℕ) (h : Heap) → IsIndexed h → i < n → j < n → n ≤ h.len → IsMoved n h (swap i j h)
swap-IsMoved i j n h v hi hj le =
    let hi' : i < h.len = (omega arith) in
    let hj' : j < h.len = (omega arith) in
    record {
      len = len-swap i j h;
      indexed = swap-IsIndexed i j h v hi' hj';
      to = λ p q. (Holds-swap i j h v hi' hj' p).0 q;
      from = λ p q. (Holds-swap i j h v hi' hj' p).1 q;
      rest = λ k lk. rest-swap i j n h k hi hj lk;
    }

lt_self : (i : ℕ) → ltb i i ≡ false
lt_self i = ground arith

module _ (pri : ℕ → ℕ) where
  -- `up` mends the one place.
  pub up_lem :
      (f j n : ℕ) (h : Heap)
      → j < f
      → j < n
      → n ≤ h.len
      → IsIndexed h
      → IsUp pri j n h
      → IsHeap pri n (up pri f j h) × IsMoved n h (up pri f j h)
  unfolding up
  up_lem zero j n h lf lj ln v u = absurd (omega arith)
  up_lem (suc f) j n h lf lj ln v u =
      elim (Bool-cases ((parent j == j) || not (less pri h j (parent j)))) [
        | inl stop ↦ rw stop (IsUp-stop pri j n h u stop, IsMoved-refl n h v)
        | inr go ↦
            let i : ℕ = parent j in
            let moved = swap-IsMoved i j n h v (omega arith) lj ln in
            let lower : i < j = (ground arith) in
            let (heap, moved') =
              up_lem f i n (swap i j h) (omega arith) (omega arith) (omega (arith, moved.len))
                moved.indexed (IsUp-swap pri j n h u lj go) in
            rw go (heap, IsMoved-trans moved moved')
      ]

  -- `down` mends the one place.
  pub down_lem :
      (f i n : ℕ) (h : Heap)
      → n ≤ f + i
      → i < n
      → n ≤ h.len
      → IsIndexed h
      → IsDown pri i n h
      → IsHeap pri n (down pri f i n h).0
        × IsMoved n h (down pri f i n h).0
        × (i ≤ (down pri f i n h).1)
  unfolding down
  down_lem zero i n h lf li ln v d = absurd (omega arith)
  down_lem (suc f) i n h lf li ln v d = elim (Bool-cases (leb n (2 * i + 1))) [
    | inl no_more ↦ rw no_more (no_child pri i n h d (ground arith), IsMoved-refl n h v, le_refl i)
    | inr more ↦
        let j : ℕ = child pri h i n in
        let b = child-IsBest pri i n h (ground arith) in
        elim (Bool-cases (less pri h j i)) [
          | inl go ↦
              let moved = swap-IsMoved i j n h v li b.inside ln in
              let (heap, moved', le) =
                down_lem f j n (swap i j h) (omega (arith, b.after)) b.inside
                  (omega (arith, moved.len)) moved.indexed
                  (swap_at pri i j n h d b (ground arith)) in
              rw (more, go) (heap, IsMoved-trans moved moved', omega (arith, b.after))
          | inr stop ↦
              rw (more, stop)
                (stop_at pri i j n h d b (ground arith), IsMoved-refl n h v, le_refl i)
        ]
  ]

  -- `down`, and then `up` if that did not move, mends a place that is too high or too low.
  pub fix_at_lem :
      (f i n : ℕ) (h : Heap)
      → n ≤ f
      → i < n
      → n ≤ h.len
      → IsIndexed h
      → IsHole pri i n h
      → IsHeap pri n (fix_at pri i (down pri f i n h))
        × IsMoved n h (fix_at pri i (down pri f i n h))
  unfolding down
  fix_at_lem zero i n h lf li ln v d = absurd (omega arith)
  fix_at_lem (suc f) i n h lf li ln v d = elim (Bool-cases (leb n (2 * i + 1))) [
    | inl no_more ↦
        rw (no_more, lt_self i)
          (up_lem (i + 1) i n h (omega arith) li ln v (hole-IsUp pri i n h d (ground arith)))
    | inr more ↦
        let j : ℕ = child pri h i n in
        let b = child-IsBest pri i n h (ground arith) in
        elim (Bool-cases (less pri h j i)) [
          | inl go ↦
              let moved = swap-IsMoved i j n h v li b.inside ln in
              let (heap, moved', le) =
                down_lem f j n (swap i j h) (omega (arith, b.after)) b.inside
                  (omega (arith, moved.len)) moved.indexed
                  (hole_swap pri i j n h d b (ground arith)) in
              let went : ltb i (down pri f j n (swap i j h)).1 ≡ true =
                lt→ltb _ _ (omega (arith, b.after)) in
              rw (more, go, went) (heap, IsMoved-trans moved moved')
          | inr stop ↦
              rw (more, stop, lt_self i)
                (up_lem (i + 1) i n h (omega arith) li ln v
                  (hole_stop pri i j n h d b (ground arith)))
        ]
  ]
