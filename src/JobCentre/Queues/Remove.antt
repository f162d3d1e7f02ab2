-- ===== src/JobCentre/Queues/Remove.antt =====
-- 9-job-centre/job_queue.go: a job that is taken out of a queue, and `Remove`.
use protohackers.Prelude.{
  ℕ, ◌<◌, ◌≡◌, ◌≢◌, ◌⊎◌, ◌↔◌, inl, inr, refl, sym, ap, ◌∙◌, subst, false, Option, none, some, Bytes,
  bytes_eq, bytes_eq_iff, ==_iff, ◌==◌, if◌then◌else◌, arith, Bool-cases, ok, err,
}
use protohackers.JobCentre.Heap.{Heap}
use protohackers.JobCentre.Heap.Index.{Holds}
use protohackers.JobCentre.Heap.Queue.{IsQueue, heap_remove_lem}
use protohackers.JobCentre.Queues.{
  Job, JobQueues, job_queue_not_found, pri, put_queue, delete_locator, remove_located, remove,
}
use protohackers.JobCentre.Queues.Push.{IsQueueOf, IsWell, job_of, pending, some-injective}

-- The state when a queue was replaced, and the locator of `id` deleted.
abbrev pub taken : ℕ → Bytes → Heap → JobQueues → JobQueues
taken id n h' jq = record jq { job_queues = put_queue n h' jq; job_locators = delete_locator id jq }

module _ (jq : JobQueues) (v : IsWell jq) (n : Bytes) (h h' : Heap) (p : ℕ)
    (in_map : jq.job_queues n ≡ some h) (held : Holds h p) (queue : IsQueue (pri jq) h')
    (left : (q : ℕ) → Holds h' q ↔ (Holds h q × (q ≢ p))) where
  abbrev id : ℕ
  id = (jq.job_at p).job_id

  -- No other job has the id of the one that was taken.
  same_id :
      (m : Bytes) (q : ℕ)
      → jq.job_locators (jq.job_at q).job_id ≡ some (m, q)
      → q ≢ p
      → (jq.job_at q).job_id ≢ id
  same_id m q e ne same = ne (
      ap (λ (x : Bytes × ℕ). x.1)
        (some-injective (sym e ∙ ap jq.job_locators same ∙ ((v.queues n h in_map).1 p held).2)))

  left_kept :
      (m : Bytes) (k : Heap) (q : ℕ)
      → jq.job_queues m ≡ some k
      → Holds k q
      → q ≢ p
      → (q < jq.next)
        × ((jq.job_at q).queue ≡ m)
        × (delete_locator id jq (jq.job_at q).job_id ≡ some (m, q))
  left_kept m k q e held' ne =
      let (lt, name, found) = (v.queues m k e).1 q held' in
      let different = same_id m q found ne in (lt, name, ground arith)

  -- A job of another queue is another job.
  elsewhere :
      (m : Bytes) (k : Heap) (q : ℕ)
      → jq.job_queues m ≡ some k
      → Holds k q
      → bytes_eq m n ≡ false
      → q ≢ p
  elsewhere m k q e held' other same =
      let names : m ≡ n =
        (sym ((v.queues m k e).1 q held').1
          ∙ ap (λ (a : ℕ). (jq.job_at a).queue) same
          ∙ ((v.queues n h in_map).1 p held).1) in
      cc (sym other ∙ (bytes_eq_iff m n).1 names)

  replaced-IsQueueOf : IsQueueOf (taken id n h' jq) n h'
  replaced-IsQueueOf = (queue, λ q a. left_kept n h q in_map ((left q).0 a).0 ((left q).0 a).1)

  taken-queues :
      (m : Bytes) (k : Heap)
      → (taken id n h' jq).job_queues m ≡ some k
      → IsQueueOf (taken id n h' jq) m k
  taken-queues m k e = elim (Bool-cases (bytes_eq m n)) [
    | inl same ↦
        subst (λ b. IsQueueOf (taken id n h' jq) b k) (sym ((bytes_eq_iff m n).0 same))
          (subst (λ b. IsQueueOf (taken id n h' jq) n b) (some-injective (rw same at e))
            replaced-IsQueueOf)
    | inr other ↦
        let e' : jq.job_queues m ≡ some k = (rw other at e) in
        ((v.queues m k e').0, λ q a. left_kept m k q e' a (elsewhere m k q e' a other))
  ]

  taken-located :
      (i : ℕ) (m : Bytes) (q : ℕ)
      → (taken id n h' jq).job_locators i ≡ some (m, q)
      → (k : Heap) × ((taken id n h' jq).job_queues m ≡ some k)
        × Holds k q
        × ((jq.job_at q).job_id ≡ i)
  taken-located i m q e = elim (Bool-cases (i == id)) [
    | inl same ↦ cc (rw same at e)
    | inr other ↦
        let (k, ek, held', found) = v.located i m q (rw other at e) in
        let ne : q ≢ p = (λ e'.
          cc (sym other ∙ (==_iff i id).1 (sym found ∙ ap (λ (a : ℕ). (jq.job_at a).job_id) e'))) in
        elim (Bool-cases (bytes_eq m n)) [
          | inl same ↦
              let there : k ≡ h =
                (some-injective (sym ek ∙ ap jq.job_queues ((bytes_eq_iff m n).0 same) ∙ in_map)) in
              (h', rw same refl, (left q).1 (subst (λ b. Holds b q) there held', ne), found)
          | inr elsewhere' ↦ (k, rw elsewhere' ek, held', found)
        ]
  ]

  taken-pending : (i : ℕ) → pending (taken id n h' jq) i ≡ (if i == id then none else pending jq i)
  taken-pending i = elim (Bool-cases (i == id)) [
    | inl same ↦ rw same refl
    | inr other ↦ rw other refl
  ]

  -- The job is gone, and every other is as it was.
  pub taken_lem :
      IsWell (taken id n h' jq)
      × ((i : ℕ) → pending (taken id n h' jq) i ≡ (if i == id then none else pending jq i))
  taken_lem = (record { queues = taken-queues; located = taken-located }, taken-pending)

-- Afterwards the job of `id` is gone, and every other is as it was.
abbrev pub IsWithout : ℕ → JobQueues → JobQueues → Type 0
IsWithout id jq jq' =
    IsWell jq' × ((i : ℕ) → pending jq' i ≡ (if i == id then none else pending jq i))

remove_found :
    (id : ℕ) (jq : JobQueues) (n : Bytes) (p : ℕ)
    → IsWell jq
    → jq.job_locators id ≡ some (n, p)
    → (jq' : JobQueues) × (remove_located id jq (some (n, p)) ≡ ok jq') × IsWithout id jq jq'
remove_found id jq n p v e =
    let (h, eh, held, same) = v.located id n p e in
    let (r, inside, (_, queue, left)) =
      heap_remove_lem (pri jq) (h.index p) h (v.queues n h eh).0 held.0 in
    let h' = r.0 in
    let left' = subst (λ a. (q : ℕ) → Holds h' q ↔ (Holds h q × (q ≢ a))) held.1 left in
    let well = taken_lem jq v n h h' p eh held queue left' in
    (
      taken id n h' jq,
      rw (eh, inside) refl,
      subst (λ a. IsWithout a jq (taken a n h' jq)) same well,
    )

-- On well-formed queues, `Remove` takes the waiting job of the id out and changes no other, or answers
-- that there is none; it never meets a queue that is missing.
pub remove_lem :
    (id : ℕ) (jq : JobQueues)
    → IsWell jq
    → ((pending jq id ≡ none) × (remove id jq ≡ err job_queue_not_found))
      ⊎ ((j : Job) × (jq' : JobQueues) × (pending jq id ≡ some j)
          × (remove id jq ≡ ok jq')
          × IsWithout id jq jq')
unfolding remove
remove_lem id jq v = go (jq.job_locators id) refl
  where
    go :
        (o : Option (Bytes × ℕ))
        → jq.job_locators id ≡ o
        → ((pending jq id ≡ none)
            × (remove_located id jq (jq.job_locators id) ≡ err job_queue_not_found))
          ⊎ ((j : Job) × (jq' : JobQueues) × (pending jq id ≡ some j)
              × (remove_located id jq (jq.job_locators id) ≡ ok jq')
              × IsWithout id jq jq')
    go none e = inl (ap (job_of jq) e, ap (remove_located id jq) e)
    go (some (n, p)) e =
        let (jq', done, without) = remove_found id jq n p v e in
        inr (jq.job_at p, jq', ap (job_of jq) e, ap (remove_located id jq) e ∙ done, without)
