-- ===== src/JobCentre/Heap/Order.antt =====
-- 9-job-centre/job_queue.go under `container/heap`: the order of the heap, and one round of each loop.
use protohackers.Prelude.{
  ℕ, zero, suc, ◌+◌, ◌-◌, ◌*◌, ◌/◌, ◌≤◌, ◌<◌, ◌≡◌, ◌≢◌, true, false, ◌||◌, not, ◌==◌, arith, ◌⊎◌,
}
use native.Mathlib.Decide.{ℕ_discrete}
use native.Mathlib.Nat.{le_trans, le_refl}
use protohackers.JobCentre.Heap.{Heap, swap, less, child}

abbrev pub parent : ℕ → ℕ
parent k = (k - 1) / 2

module _ (pri : ℕ → ℕ) where
  -- The first `n` elements are a heap: none has a higher priority than its parent.
  pub record IsHeap (n : ℕ) (h : Heap) : Type 0 where
    pub ordered : (k : ℕ) → 0 < k → k < n → pri (h.at k) ≤ pri (h.at (parent k))

  -- A heap but for the element at `j`, which may be too high for its parent.
  pub record IsUp (j n : ℕ) (h : Heap) : Type 0 where
    pub others : (k : ℕ) → 0 < k → k < n → k ≢ j → pri (h.at k) ≤ pri (h.at (parent k))
    pub around :
        (k : ℕ) → 0 < k → k < n → parent k ≡ j → 0 < j → pri (h.at k) ≤ pri (h.at (parent j))

  -- A heap but for the element at `i`, which may be too low for its children.
  pub record IsDown (i n : ℕ) (h : Heap) : Type 0 where
    pub others : (k : ℕ) → 0 < k → k < n → parent k ≢ i → pri (h.at k) ≤ pri (h.at (parent k))
    pub around :
        (k : ℕ) → 0 < k → k < n → parent k ≡ i → 0 < i → pri (h.at k) ≤ pri (h.at (parent i))

  -- A heap but for the element at `i`, which may be either.
  pub record IsHole (i n : ℕ) (h : Heap) : Type 0 where
    pub others :
        (k : ℕ) → 0 < k → k < n → k ≢ i → parent k ≢ i → pri (h.at k) ≤ pri (h.at (parent k))
    pub around :
        (k : ℕ) → 0 < k → k < n → parent k ≡ i → 0 < i → pri (h.at k) ≤ pri (h.at (parent i))

  pub IsUp-stop :
      (j n : ℕ) (h : Heap)
      → IsUp j n h
      → ((parent j == j) || not (less pri h j (parent j))) ≡ true
      → IsHeap n h
  IsUp-stop j n h v stop = record { ordered = λ k hk hn. ground (arith, v.others k hk hn) }

  pub IsUp-swap :
      (j n : ℕ) (h : Heap)
      → IsUp j n h
      → j < n
      → ((parent j == j) || not (less pri h j (parent j))) ≡ false
      → IsUp (parent j) n (swap (parent j) j h)
  unfolding swap
  IsUp-swap j n h v hj go = record {
    others = λ k hk hn ne. ground (arith, v.others k hk hn, v.others (parent j), v.around k hk hn);
    around = λ k hk hn e pos'. ground (arith, v.others k hk hn, v.others (parent j));
  }

two_children : (k i : ℕ) → 0 < k → parent k ≡ i → (k ≡ 2 * i + 1) ⊎ (k ≡ 2 * i + 2)
two_children k i hk e = omega arith

module _ (pri : ℕ → ℕ) where
  -- The child that is compared is there, and no other child is higher.
  child_lem :
      (h : Heap) (i n : ℕ)
      → 2 * i + 1 < n
      → (child pri h i n < n)
        × (parent (child pri h i n) ≡ i)
        × (i < child pri h i n)
        × ((k : ℕ) → 0 < k → k < n → parent k ≡ i → pri (h.at k) ≤ pri (h.at (child pri h i n)))
  child_lem h i n lt =
      (ground arith, ground arith, ground arith, λ k hk hn e. ground (arith, two_children k i hk e))

  -- `j` is the child of `i` that no other child of `i` is above.
  pub record IsBest (i j n : ℕ) (h : Heap) : Type 0 where
    pub inside : j < n
    pub below : parent j ≡ i
    pub after : i < j
    pub best : (k : ℕ) → 0 < k → k < n → parent k ≡ i → pri (h.at k) ≤ pri (h.at j)

  pub child-IsBest : (i n : ℕ) (h : Heap) → 2 * i + 1 < n → IsBest i (child pri h i n) n h
  child-IsBest i n h lt =
      let (inside, below, after, best) = child_lem h i n lt in
      record { inside = inside; below = below; after = after; best = best }

  pub no_child : (i n : ℕ) (h : Heap) → IsDown pri i n h → n ≤ 2 * i + 1 → IsHeap pri n h
  no_child i n h v le = record { ordered = λ k hk hn. v.others k hk hn (λ e. absurd (omega arith)) }

  pub stop_at :
      (i j n : ℕ) (h : Heap)
      → IsDown pri i n h
      → IsBest i j n h
      → pri (h.at j) ≤ pri (h.at i)
      → IsHeap pri n h
  stop_at i j n h v b le = record {
    ordered = λ k hk hn. elim (ℕ_discrete (parent k) i) [
      | yes e ↦ rw e (le_trans (b.best k hk hn e) le)
      | no ne ↦ v.others k hk hn ne
    ];
  }

  pub swap_at :
      (i j n : ℕ) (h : Heap)
      → IsDown pri i n h
      → IsBest i j n h
      → pri (h.at i) < pri (h.at j)
      → IsDown pri j n (swap i j h)
  unfolding swap
  swap_at i j n h v b lt = record {
    others = λ k hk hn ne. ground (
      arith,
      b.inside,
      b.below,
      b.after,
      b.best k hk hn,
      v.others k hk hn,
      v.around j,
      v.around k hk hn,
    );
    around = λ k hk hn e hj. ground (arith, b.inside, b.below, b.after, v.others k hk hn);
  }

  -- From a hole: the first round, whether it moves or not.
  pub hole-IsUp : (i n : ℕ) (h : Heap) → IsHole pri i n h → n ≤ 2 * i + 1 → IsUp pri i n h
  hole-IsUp i n h v le = record {
    others = λ k hk hn ne. v.others k hk hn ne (λ e. absurd (omega arith));
    around = v.around;
  }

  pub hole_stop :
      (i j n : ℕ) (h : Heap)
      → IsHole pri i n h
      → IsBest i j n h
      → pri (h.at j) ≤ pri (h.at i)
      → IsUp pri i n h
  hole_stop i j n h v b le = record {
    others = λ k hk hn ne. elim (ℕ_discrete (parent k) i) [
      | yes e ↦ rw e (le_trans (b.best k hk hn e) le)
      | no ne' ↦ v.others k hk hn ne ne'
    ];
    around = v.around;
  }

  pub hole_swap :
      (i j n : ℕ) (h : Heap)
      → IsHole pri i n h
      → IsBest i j n h
      → pri (h.at i) < pri (h.at j)
      → IsDown pri j n (swap i j h)
  unfolding swap
  hole_swap i j n h v b lt = record {
    others = λ k hk hn ne. ground (
      arith,
      b.inside,
      b.below,
      b.after,
      b.best k hk hn,
      v.others k hk hn,
      v.around j,
      v.around k hk hn,
    );
    around = λ k hk hn e hj. ground (arith, b.inside, b.below, b.after, v.others k hk hn);
  }

  -- The root of a heap has the highest priority.
  pub root_lem :
      (n : ℕ) (h : Heap) → IsHeap pri n h → (f k : ℕ) → k ≤ f → k < n → pri (h.at k) ≤ pri (h.at 0)
  root_lem n h v zero zero le hk = le_refl _
  root_lem n h v zero (suc k) le hk = absurd (omega arith)
  root_lem n h v (suc f) zero le hk = le_refl _
  root_lem n h v (suc f) (suc k) le hk =
      le_trans (v.ordered (suc k) (omega arith) hk)
        (root_lem n h v f (parent (suc k)) (omega arith) (omega arith))
