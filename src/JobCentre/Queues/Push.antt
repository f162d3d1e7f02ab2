-- ===== src/JobCentre/Queues/Push.antt =====
-- 9-job-centre/job_queue.go: what ties the queues, the jobs and the locators together, and `Push`.
use protohackers.Prelude.{
  ℕ, ◌-◌, ◌/◌, ◌<◌, ◌≡◌, ◌≢◌, ◌⊎◌, inl, inr, refl, sym, ap, ◌∙◌, subst, Option, none, some, [],
  ◌++◌, Bytes, bytes_eq, bytes_eq_iff, bytes_eq_refl, ==_iff, ◌==◌, if◌then◌else◌, arith,
  Bool-cases,
}
use protohackers.JobCentre.Heap.{Heap, heap_push}
use protohackers.JobCentre.Heap.Index.{Holds}
use protohackers.JobCentre.Heap.Queue.{IsQueue, heap_push_lem, held_at}
use protohackers.JobCentre.Queues.{Job, JobQueues, pri, or_empty, allocate, push}

-- `h` is a queue of jobs that were put into the queue `n`, each found by its locator.
abbrev pub IsQueueOf : JobQueues → Bytes → Heap → Type 0
IsQueueOf jq n h =
    IsQueue (pri jq) h
    × ((p : ℕ)
        → Holds h p
        → (p < jq.next)
          × ((jq.job_at p).queue ≡ n)
          × (jq.job_locators (jq.job_at p).job_id ≡ some (n, p)))

-- The locators find the jobs in the queues, and nothing else.
pub record IsWell (jq : JobQueues) : Type 0 where
  pub queues : (n : Bytes) (h : Heap) → jq.job_queues n ≡ some h → IsQueueOf jq n h
  pub located :
      (i : ℕ) (n : Bytes) (p : ℕ)
      → jq.job_locators i ≡ some (n, p)
      → (h : Heap) × (jq.job_queues n ≡ some h) × Holds h p × ((jq.job_at p).job_id ≡ i)

-- The job that waits in a queue under an id.
abbrev pub job_of : JobQueues → Option (Bytes × ℕ) → Option Job
job_of jq none = none
job_of jq (some (n, p)) = some (jq.job_at p)

abbrev pub pending : JobQueues → ℕ → Option Job
pending jq i = job_of jq (jq.job_locators i)

-- Priorities that agree on the jobs of a queue make it the same queue.
pub IsQueue-agree :
    (f g : ℕ → ℕ) (h : Heap) → ((p : ℕ) → Holds h p → g p ≡ f p) → IsQueue f h → IsQueue g h
IsQueue-agree f g h e v = record {
  indexed = v.indexed;
  heap = record {
    ordered = λ k lk hk. omega (
      arith,
      v.heap.ordered k lk hk,
      e (h.at k) (held_at h v.indexed k hk),
      e (h.at ((k - 1) / 2)) (held_at h v.indexed ((k - 1) / 2) (omega arith)),
    );
  };
}

pub some-injective : {A : Type 0} {a b : A} → ◌≡◌ {A = Option A} (some a) (some b) → a ≡ b
some-injective e = cc

or_empty-IsQueueOf :
    (jq : JobQueues) (n : Bytes) (o : Option Heap)
    → IsWell jq
    → jq.job_queues n ≡ o
    → IsQueueOf jq n (or_empty o)
or_empty-IsQueueOf jq n none v e = (
  record {
    indexed = record { places = λ k hk. absurd (omega arith) };
    heap = record { ordered = λ k lk hk. absurd (omega arith) };
  },
  λ p h. absurd (omega (arith, h.0)),
)
or_empty-IsQueueOf jq n (some h) v e = v.queues n h e

module _ (j : Job) (jq : JobQueues) (v : IsWell jq) (new : pending jq j.job_id ≡ none) where
  -- The queue that the job is put into, before.
  abbrev target : Heap
  target = or_empty (jq.job_queues j.queue)

  target-IsQueueOf : IsQueueOf jq j.queue target
  target-IsQueueOf = or_empty-IsQueueOf jq j.queue (jq.job_queues j.queue) v refl

  old_job : (q : ℕ) → q < jq.next → (allocate j jq).job_at q ≡ jq.job_at q
  old_job q lt = ground arith

  old_id : (n : Bytes) (q i : ℕ) → jq.job_locators i ≡ some (n, q) → i ≢ j.job_id
  old_id n q i e e' = ground arith

  -- A job that was in a queue has its place in the map afterwards.
  old_kept :
      (n : Bytes) (q : ℕ)
      → (q < jq.next)
        × ((jq.job_at q).queue ≡ n)
        × (jq.job_locators (jq.job_at q).job_id ≡ some (n, q))
      → (q < (push j jq).next)
        × (((push j jq).job_at q).queue ≡ n)
        × ((push j jq).job_locators ((push j jq).job_at q).job_id ≡ some (n, q))
  unfolding push
  old_kept n q (lt, e, l) =
      let ne = old_id n q (jq.job_at q).job_id l in rw (old_job q lt) (omega arith, e, ground arith)

  target_pushed :
      IsQueue (pri (allocate j jq)) (heap_push (pri (allocate j jq)) jq.next target)
      × ((q : ℕ)
          → Holds (heap_push (pri (allocate j jq)) jq.next target) q
          → (q ≡ jq.next) ⊎ Holds target q)
      × Holds (heap_push (pri (allocate j jq)) jq.next target) jq.next
      × ((q : ℕ) → Holds target q → Holds (heap_push (pri (allocate j jq)) jq.next target) q)
  target_pushed =
      let (queue, held) = target-IsQueueOf in
      let agreed =
        IsQueue-agree (pri jq) (pri (allocate j jq)) target
          (λ q h. ap (λ (k : Job). k.priority) (old_job q (held q h).0)) queue in
      let (pushed, holds) =
        heap_push_lem (pri (allocate j jq)) jq.next target agreed
          (λ h. absurd (omega (arith, (held jq.next h).0))) in
      (pushed, λ q. (holds q).0, (holds jq.next).1 (inl refl), λ q h. (holds q).1 (inr h))

  new_kept :
      ((jq.next) < (push j jq).next)
      × (((push j jq).job_at jq.next).queue ≡ j.queue)
      × ((push j jq).job_locators ((push j jq).job_at jq.next).job_id ≡ some (j.queue, jq.next))
  unfolding push
  new_kept = ground arith

  pushed-IsQueueOf : IsQueueOf (push j jq) j.queue (heap_push (pri (allocate j jq)) jq.next target)
  unfolding push
  pushed-IsQueueOf =
      let (pushed, from, now, old) = target_pushed in
      (
        pushed,
        λ q h. elim (from q h) [
          | inl e ↦ rw e new_kept
          | inr h' ↦ old_kept j.queue q (target-IsQueueOf.1 q h')
        ],
      )

  other-IsQueueOf : (n : Bytes) (h : Heap) → jq.job_queues n ≡ some h → IsQueueOf (push j jq) n h
  unfolding push
  other-IsQueueOf n h e =
      let (queue, held) = v.queues n h e in
      (
        IsQueue-agree (pri jq) (pri (allocate j jq)) h
            (λ q h. ap (λ (k : Job). k.priority) (old_job q (held q h).0)) queue,
        λ q h'. old_kept n q (held q h'),
      )

  push-queues :
      (n : Bytes) (h : Heap) → (push j jq).job_queues n ≡ some h → IsQueueOf (push j jq) n h
  unfolding push
  push-queues n h e = elim (Bool-cases (bytes_eq n j.queue)) [
    | inl same ↦
        let pushed : heap_push (pri (allocate j jq)) jq.next target ≡ h =
          (some-injective (rw same at e)) in
        subst (λ m. IsQueueOf (push j jq) m h) (sym ((bytes_eq_iff n j.queue).0 same))
          (subst (λ k. IsQueueOf (push j jq) j.queue k) pushed pushed-IsQueueOf)
    | inr other ↦ other-IsQueueOf n h (rw other at e)
  ]

  -- The locator of `i` leads to a job in a queue.
  abbrev Leads : JobQueues → ℕ → Bytes → ℕ → Type 0
  Leads jq i n p = (h : Heap) × (jq.job_queues n ≡ some h) × Holds h p × ((jq.job_at p).job_id ≡ i)

  new-Leads : Leads (push j jq) j.job_id j.queue jq.next
  unfolding push
  new-Leads =
      let (_, _, now, _) = target_pushed in
      (
        heap_push (pri (allocate j jq)) jq.next target,
        rw (bytes_eq_refl j.queue) refl,
        now,
        ground arith,
      )

  old-Leads :
      (i : ℕ) (n : Bytes) (p : ℕ) → jq.job_locators i ≡ some (n, p) → Leads (push j jq) i n p
  unfolding push
  old-Leads i n p e =
      let (h, eh, held, id) = v.located i n p e in
      let id' = ap (λ (k : Job). k.job_id) (old_job p ((v.queues n h eh).1 p held).0) ∙ id in
      elim (Bool-cases (bytes_eq n j.queue)) [
        | inl same ↦
            let (_, _, _, old) = target_pushed in
            let there : target ≡ h =
              (ap or_empty (ap jq.job_queues (sym ((bytes_eq_iff n j.queue).0 same)) ∙ eh)) in
            (
              heap_push (pri (allocate j jq)) jq.next target,
              rw same refl,
              old p (subst (λ k. Holds k p) (sym there) held),
              id',
            )
        | inr other ↦ (h, rw other eh, held, id')
      ]

  push-Leads :
      (i : ℕ) (n : Bytes) (p : ℕ)
      → (push j jq).job_locators i ≡ some (n, p)
      → Leads (push j jq) i n p
  unfolding push
  push-Leads i n p e = elim (Bool-cases (i == j.job_id)) [
    | inl same ↦
        let at_new : ◌≡◌ {A = Bytes × ℕ} (j.queue, jq.next) (n, p) =
          (some-injective (rw same at e)) in
        subst (λ k. Leads (push j jq) k n p) (sym ((==_iff i j.job_id).0 same))
          (subst (λ (x : Bytes × ℕ). Leads (push j jq) j.job_id x.0 x.1) at_new new-Leads)
    | inr other ↦ old-Leads i n p (rw other at e)
  ]

  old-pending :
      (i : ℕ) (o : Option (Bytes × ℕ)) → jq.job_locators i ≡ o → job_of (push j jq) o ≡ job_of jq o
  unfolding push
  old-pending i none e = refl
  old-pending i (some (n, p)) e =
      let (h, eh, held, _) = v.located i n p e in ap some (old_job p ((v.queues n h eh).1 p held).0)

  push-pending : (i : ℕ) → pending (push j jq) i ≡ (if i == j.job_id then some j else pending jq i)
  unfolding push
  push-pending i = elim (Bool-cases (i == j.job_id)) [
    | inl same ↦ rw same (ground arith)
    | inr other ↦ rw other (old-pending i (jq.job_locators i) refl)
  ]

-- `Push` of a job under an id that no waiting job has keeps the queues and locators well-formed, adds the
-- job and changes no other, and leaves no call of `Pop` waiting at its channel.
pub push_lem :
    (j : Job) (jq : JobQueues)
    → IsWell jq
    → pending jq j.job_id ≡ none
    → IsWell (push j jq)
      × ((i : ℕ) → pending (push j jq) i ≡ (if i == j.job_id then some j else pending jq i))
      × ((push j jq).notifiers ≡ [])
      × ((push j jq).closed ≡ jq.closed ++ jq.notifiers)
unfolding push
push_lem j jq v new = (
  record { queues = push-queues j jq v new; located = push-Leads j jq v new },
  push-pending j jq v new,
  refl,
  refl,
)
