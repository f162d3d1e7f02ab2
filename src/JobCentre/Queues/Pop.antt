-- ===== src/JobCentre/Queues/Pop.antt =====
-- 9-job-centre/job_queue.go: `Pop`.
use native.Mathlib.Nat.{le_trans, le_refl}
use protohackers.Prelude.{
  ℕ, ◌≤◌, ◌<◌, ◌≡◌, ◌⊎◌, inl, inr, refl, sym, ap, ◌∙◌, subst, Bool, true, false, Option, none, some,
  List, [], ◌∷◌, Bytes, ◌==◌, if◌then◌else◌, arith, Bool-cases, ltb,
}
use protohackers.JobCentre.Heap.{Heap, heap_pop}
use protohackers.JobCentre.Heap.Queue.{heap_pop_lem}
use protohackers.JobCentre.Queues.{
  Job, JobQueues, pri, compare_queue, highest, popped, queue_empty, waits, pop_queue, pop_highest,
  pop_round,
}
use protohackers.JobCentre.Queues.Push.{IsWell, job_of, pending, some-injective}
use protohackers.JobCentre.Queues.Remove.{taken, taken_lem, IsWithout}

abbrev pub In : Bytes → List Bytes → Type 0
In n [] = ⊥
In n (m ∷ ns) = (n ≡ m) ⊎ In n ns

-- A queue that is not empty, with the priority of its root.
abbrev Top : JobQueues → Bytes → ℕ → Type 0
Top jq n k = (h : Heap) × (jq.job_queues n ≡ some h) × (0 < h.len) × (pri jq (h.at 0) ≡ k)

Top-some :
    (jq : JobQueues) (n : Bytes) (h : Heap) (k : ℕ)
    → jq.job_queues n ≡ some h
    → Top jq n k
    → (0 < h.len) × (pri jq (h.at 0) ≡ k)
Top-some jq n h k e (h', e', some_, top) =
    subst (λ b. (0 < b.len) × (pri jq (b.at 0) ≡ k)) (some-injective (sym e' ∙ e)) (some_, top)

Top-none : (jq : JobQueues) (n : Bytes) (k : ℕ) → jq.job_queues n ≡ none → ¬ Top jq n k
Top-none jq n k e (h', e', some_, top) = cc (sym e ∙ e')

-- One comparison: nothing falls, the queue is covered, and what changes is its root.
compare_queue_lem :
    (jq : JobQueues) (n : Bytes) (o : Option Heap) (best : Option Bytes × ℕ)
    → jq.job_queues n ≡ o
    → let best' = compare_queue jq n o best in
      (best.1 ≤ best'.1)
      × ((k : ℕ) → Top jq n k → k ≤ best'.1)
      × ((best' ≡ best) ⊎ ((best'.0 ≡ some n) × Top jq n best'.1 × (best.1 < best'.1)))
compare_queue_lem jq n none best e = (le_refl _, λ k top. absurd (Top-none jq n k e top), inl refl)
compare_queue_lem jq n (some h) best e = elim (Bool-cases (h.len == 0)) [
  | inl empty ↦
      rw empty (le_refl _, λ k top. absurd (ground (arith, Top-some jq n h k e top)), inl refl)
  | inr some_ ↦ elim (Bool-cases (ltb best.1 (pri jq (h.at 0)))) [
    | inl higher ↦
        rw (some_, higher)
          (
            ground arith,
            λ k top. ground (arith, Top-some jq n h k e top),
            inr (refl, (h, e, ground arith, refl), ground arith),
          )
    | inr lower ↦
        rw (some_, lower) (le_refl _, λ k top. ground (arith, Top-some jq n h k e top), inl refl)
  ]
]

-- The whole loop.
highest_lem :
    (jq : JobQueues) (ns : List Bytes) (best : Option Bytes × ℕ)
    → let best' = highest jq ns best in
      (best.1 ≤ best'.1)
      × ((n : Bytes) (k : ℕ) → In n ns → Top jq n k → k ≤ best'.1)
      × ((best' ≡ best)
          ⊎ ((n : Bytes) × (best'.0 ≡ some n) × In n ns × Top jq n best'.1 × (best.1 < best'.1)))
unfolding highest
highest_lem jq [] best = (le_refl _, λ n k i top. absurd i, inl refl)
highest_lem jq (m ∷ ns) best =
    let (grows, covers, now) = compare_queue_lem jq m (jq.job_queues m) best refl in
    let (grows', covers', later) = highest_lem jq ns (compare_queue jq m (jq.job_queues m) best) in
    (
      le_trans grows grows',
      λ n k i top. elim i [
        | inl e ↦ le_trans (covers k (subst (λ a. Top jq a k) e top)) grows'
        | inr i' ↦ covers' n k i' top
      ],
      elim later [
        | inl e ↦ elim now [
          | inl e' ↦ inl (e ∙ e')
          | inr (is_m, top, higher) ↦ inr (
            m,
            ap (λ b. b.0) e ∙ is_m,
            inl refl,
            subst (λ b. Top jq m b.1) (sym e) top,
            subst (λ b. best.1 < b.1) (sym e) higher,
          )
        ]
        | inr (n, is_n, i, top, higher) ↦ inr (n, is_n, inr i, top, omega (arith, grows, higher))
      ],
    )

-- A waiting job is at most as high as the root of its queue.
below_root :
    (jq : JobQueues) (i : ℕ) (k : Job) (o : Option (Bytes × ℕ))
    → IsWell jq
    → jq.job_locators i ≡ o
    → job_of jq o ≡ some k
    → (r : ℕ) × Top jq k.queue r × (k.priority ≤ r)
below_root jq i k none v e e' = cc
below_root jq i k (some (n, p)) v e e' =
    let (h, eh, held, _) = v.located i n p e in
    let (queue, kept) = v.queues n h eh in
    let some_ : 0 < h.len = (omega (arith, held.0)) in
    let (_, _, best) = heap_pop_lem (pri jq) h queue some_ in
    let is_k = some-injective e' in
    subst (λ (j : Job). (r : ℕ) × Top jq j.queue r × (j.priority ≤ r)) is_k
      (
        pri jq (h.at 0),
        subst (λ m. Top jq m (pri jq (h.at 0))) (sym (kept p held).1) (h, eh, some_, refl),
        best p held,
      )

-- The job was waiting in one of the queues, is as high as any that waits there, and is the only one that
-- is gone.
abbrev pub IsPopped : List Bytes → JobQueues → Job → JobQueues → Type 0
IsPopped order jq j jq' =
    (pending jq j.job_id ≡ some j)
    × In j.queue order
    × (0 < j.priority)
    × ((i : ℕ) (k : Job) → pending jq i ≡ some k → In k.queue order → k.priority ≤ j.priority)
    × IsWithout j.job_id jq jq'

-- No job of a priority above 0 waits in the queues, and nothing but the waiting call is new.
abbrev pub IsEmptyHanded : List Bytes → JobQueues → JobQueues → Type 0
IsEmptyHanded order jq jq' =
    ((i : ℕ) (k : Job) → pending jq i ≡ some k → In k.queue order → k.priority ≡ 0)
    × IsWell jq'
    × ((i : ℕ) → pending jq' i ≡ pending jq i)

module _ (order : List Bytes) (jq : JobQueues) (v : IsWell jq) where
  found_lem :
      (n : Bytes) (m : ℕ)
      → In n order
      → Top jq n m
      → 0 < m
      → ((i : ℕ) (k : Job) → pending jq i ≡ some k → In k.queue order → k.priority ≤ m)
      → (j : Job) × (jq' : JobQueues) × (pop_queue n jq (jq.job_queues n) ≡ (jq', popped j))
        × IsPopped order jq j jq'
  found_lem n m i (h, eh, some_, top) positive covers =
      let (queue, kept) = v.queues n h eh in
      let ((is_root, queue', left), held, _) = heap_pop_lem (pri jq) h queue some_ in
      let h' = (heap_pop (pri jq) h).0 in
      let j = jq.job_at (h.at 0) in
      let (lt, name, found) = kept (h.at 0) held in
      (
        j,
        taken j.job_id n h' jq,
        ap (pop_queue n jq) eh
            ∙ ap (λ (p : ℕ). (taken (jq.job_at p).job_id n h' jq, popped (jq.job_at p))) is_root,
        (
          ap (job_of jq) found,
          subst (λ a. In a order) (sym name) i,
          omega (arith, top, positive),
          λ i k e i'. omega (arith, covers i k e i', top),
          taken_lem jq v n h h' (h.at 0) eh held queue' left,
        ),
      )

  none_lem :
      (wait : Bool)
      → ((i : ℕ) (k : Job) → pending jq i ≡ some k → In k.queue order → k.priority ≤ 0)
      → (jq' : JobQueues) × (pop_highest wait jq none
          ≡ (jq', if wait then waits jq.made else queue_empty))
        × IsEmptyHanded order jq jq'
  none_lem true covers = (
    (pop_highest true jq none).0,
    refl,
    (
      λ i k e i'. omega (arith, covers i k e i'),
      record { queues = v.queues; located = v.located },
      λ i. refl,
    ),
  )
  none_lem false covers = (jq, refl, (λ i k e i'. omega (arith, covers i k e i'), v, λ i. refl))

-- A round of `Pop` whose context is not done, on well-formed queues and whatever the order in which it
-- meets them: it returns a job of a priority above 0 that waits in one of them, as high as any that
-- waits there, and takes that job out and no other; or no such job waits, and then it waits at a new
-- channel or answers that the queues are empty, and no job is gone.
pub pop_round_lem :
    (order : List Bytes) (wait : Bool) (jq : JobQueues)
    → IsWell jq
    → ((j : Job) × (jq' : JobQueues) × (pop_round false order wait jq ≡ (jq', popped j))
        × IsPopped order jq j jq')
      ⊎ ((jq' : JobQueues) × (pop_round false order wait jq
            ≡ (jq', if wait then waits jq.made else queue_empty))
          × IsEmptyHanded order jq jq')
unfolding pop_round
pop_round_lem order wait jq v =
    let best = highest jq order (none, 0) in
    let (_, covers, later) = highest_lem jq order (none, 0) in
    let bound : (i : ℕ) (k : Job) → pending jq i ≡ some k → In k.queue order → k.priority ≤ best.1 =
      (λ i k e i'.
        let (r, top, le) = below_root jq i k (jq.job_locators i) v refl e in
        le_trans le (covers k.queue r i' top)) in
    elim later [
      | inl e ↦
          let (jq', done, is_empty) =
            none_lem order jq v wait
              (λ i k w i'. subst (λ b. k.priority ≤ b.1) e (bound i k w i')) in
          inr (jq', ap (λ b. pop_highest wait jq b.0) e ∙ done, is_empty)
      | inr (n, is_n, i, top, positive) ↦
          let (j, jq', done, is_popped) = found_lem order jq v n best.1 i top positive bound in
          inl (j, jq', ap (pop_highest wait jq) is_n ∙ done, is_popped)
    ]
