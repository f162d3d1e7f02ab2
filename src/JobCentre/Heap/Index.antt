-- ===== src/JobCentre/Heap/Index.antt =====
-- 9-job-centre/job_queue.go: every job in a queue knows its place.
use protohackers.Prelude.{ℕ, ◌<◌, ◌≡◌, ◌↔◌, arith}
use protohackers.JobCentre.Heap.{Heap, swap}

pub record IsIndexed (h : Heap) : Type 0 where
  pub places : (k : ℕ) → k < h.len → h.index (h.at k) ≡ k

-- The job at `p` is in the queue.
abbrev pub Holds : Heap → ℕ → Type 0
Holds h p = (h.index p < h.len) × (h.at (h.index p) ≡ p)

module _ (i j : ℕ) (h : Heap) (v : IsIndexed h) (hi : i < h.len) (hj : j < h.len) where
  pub swap-IsIndexed : IsIndexed (swap i j h)
  unfolding swap
  swap-IsIndexed = record {
    places = λ k hk. ground (arith, v.places k hk, v.places i hi, v.places j hj);
  }

  pub Holds-swap : (p : ℕ) → Holds h p ↔ Holds (swap i j h) p
  unfolding swap
  Holds-swap p = (
    λ q. ground (arith, v.places i hi, v.places j hj),
    λ q. ground (arith, v.places i hi, v.places j hj, v.places (h.index p)),
  )
