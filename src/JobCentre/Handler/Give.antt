-- ===== src/JobCentre/Handler/Give.antt =====
-- 9-job-centre/main.go: `PutJob` and `GetJob`.
use protohackers.Prelude.{
  ℕ, ◌+◌, ◌%◌, ◌^◌, ◌<◌, ◌≡◌, ◌≢◌, ◌⊎◌, inl, inr, Bool-cases, refl, sym, ap, ◌∙◌, subst, Bool, true,
  false, none, some, List, [], Bytes, bytes_eq, bytes_eq_iff, bytes_eq_refl, ==_iff, arith, ◌==◌,
  if◌then◌else◌, ok, err,
}
use protohackers.JobCentre.Queues.{Job, JobQueues, waits, queue_empty}
use protohackers.JobCentre.Queues.Push.{IsWell, pending, push_lem, some-injective}
use protohackers.JobCentre.Queues.Remove.{IsWithout}
use protohackers.JobCentre.Queues.Pop.{IsPopped, IsEmptyHanded, pop_round_lem}
use protohackers.JobCentre.Handler.{
  Handler, no_job, got, waiting, is_own, set_jobs, with_job, set_progress, assign, after_pop,
  put_job, get_job,
}
use protohackers.JobCentre.Handler.Safe.{IsSafe, own_at, is_named, if_same, if_other}
use protohackers.JobCentre.Handler.Delete.{waiting-idle}

own_added :
    (h : Handler) (client : Bytes) (id : ℕ) (s : ℕ → Bool) (c : Bytes) (i : ℕ)
    → h.client_job client ≡ some s
    → is_own (set_jobs client (some (with_job id s)) h.client_job c) i ≡ (
        if bytes_eq c client
        then (if i == id then true else is_own (h.client_job c) i)
        else is_own (h.client_job c) i)
own_added h client id s c i e = elim (Bool-cases (bytes_eq c client)) [
  | inl same ↦ rw (same, own_at h client (some s) c i e same) refl
  | inr other ↦ rw other refl
]

module _ (h : Handler) (v : IsSafe h) (client : Bytes) (s : ℕ → Bool)
    (e : h.client_job client ≡ some s) (j : Job) (w : pending h.queues j.job_id ≡ some j)
    (q : JobQueues) (without : IsWithout j.job_id h.queues q) where
  abbrev assigned : Handler
  assigned = record h {
    queues = q;
    client_job = set_jobs client (some (with_job j.job_id s)) h.client_job;
    in_progress = set_progress j.job_id (some (j, client)) h;
  }

  idle : h.in_progress j.job_id ≡ none
  idle = waiting-idle j.job_id h v j w (h.in_progress j.job_id) refl

  gone : pending q j.job_id ≡ none
  gone = without.1 j.job_id ∙ if_same _ _ j.job_id j.job_id refl

  others : (i : ℕ) → (i == j.job_id) ≡ false → pending q i ≡ pending h.queues i
  others i other = without.1 i ∙ rw other refl

  own_new : is_own (assigned.client_job client) j.job_id ≡ true
  own_new =
      own_added h client j.job_id s client j.job_id e
      ∙ rw (bytes_eq_refl client) (if_same _ _ j.job_id j.job_id refl)

  assigned-held :
      (i : ℕ) (k : Job) (c : Bytes)
      → assigned.in_progress i ≡ some (k, c)
      → (k.job_id ≡ i) × (pending q i ≡ none) × (is_own (assigned.client_job c) i ≡ true)
  assigned-held i k c e' = elim (Bool-cases (i == j.job_id)) [
    | inl same ↦
        let new : ◌≡◌ {A = Job × Bytes} (j, client) (k, c) = (some-injective (rw same at e')) in
        subst
          (λ (x : Job × Bytes).
            (x.0.job_id ≡ i) × (pending q i ≡ none) × (is_own (assigned.client_job x.1) i ≡ true))
          new
          (subst
            (λ a.
              (j.job_id ≡ a)
              × (pending q a ≡ none)
              × (is_own (assigned.client_job client) a ≡ true))
            (sym ((==_iff i j.job_id).0 same)) (refl, gone, own_new))
    | inr other ↦
        let (is_k, waits_not, own) = v.held i k c (rw other at e') in
        (
          is_k,
          others i other ∙ waits_not,
          own_added h client j.job_id s c i e ∙ rw (other, own) (ground arith),
        )
  ]

  assigned-owned :
      (c : Bytes) (i : ℕ)
      → is_own (assigned.client_job c) i ≡ true
      → (k : Job) × (assigned.in_progress i ≡ some (k, c))
  assigned-owned c i own =
      let was = sym (own_added h client j.job_id s c i e) ∙ own in
      elim (Bool-cases (i == j.job_id)) [
        | inl same ↦ elim (Bool-cases (bytes_eq c client)) [
          | inl mine ↦
              (j, rw same (ap (λ (b : Bytes). some (j, b)) (sym ((bytes_eq_iff c client).0 mine))))
          | inr theirs ↦
              let (k, e') = v.owned c i (rw theirs at was) in
              cc (sym idle ∙ ap h.in_progress (sym ((==_iff i j.job_id).0 same)) ∙ e')
        ]
        | inr other ↦
            let own' : is_own (h.client_job c) i ≡ true = (elim (Bool-cases (bytes_eq c client)) [
              | inl mine ↦ rw (mine, other) at was
              | inr theirs ↦ rw theirs at was
            ]) in
            let (k, e') = v.owned c i own' in (k, rw other e')
      ]

  assigned-IsSafe : IsSafe assigned
  assigned-IsSafe = record {
    queues = without.0;
    held = assigned-held;
    owned = assigned-owned;
    issued = λ i lt. elim (Bool-cases (i == j.job_id)) [
      | inl same ↦
          cc (sym w ∙ ap (pending h.queues) (sym ((==_iff i j.job_id).0 same)) ∙ (v.issued i lt).0)
      | inr other ↦ (others i other ∙ (v.issued i lt).0, rw other (v.issued i lt).1)
    ];
  }

-- The client has the job, which waited in one of the queues and was as high as any there; no other job
-- has moved.
abbrev pub IsGiven : Bytes → List Bytes → Handler → Job → Handler → Type 0
IsGiven client order h j h' =
    IsPopped order h.queues j h'.queues
    × IsSafe h'
    × (h'.in_progress j.job_id ≡ some (j, client))
    × ((i : ℕ) → i ≢ j.job_id → h'.in_progress i ≡ h.in_progress i)

after_empty :
    (client : Bytes) (h : Handler) (q : JobQueues) (wait : Bool)
    → after_pop client h (q, if wait then waits h.queues.made else queue_empty)
      ≡ (if wait then ok (record h { queues = q }, waiting h.queues.made) else err no_job)
after_empty client h q true = refl
after_empty client h q false = refl

unmoved-IsSafe :
    (h : Handler) (q : JobQueues)
    → IsSafe h
    → IsWell q
    → ((i : ℕ) → pending q i ≡ pending h.queues i)
    → IsSafe (record h { queues = q })
unmoved-IsSafe h q v well same = record {
  queues = well;
  held = λ i k c e. let (is_k, waits_not, own) = v.held i k c e in (is_k, same i ∙ waits_not, own);
  owned = v.owned;
  issued = λ i lt. (same i ∙ (v.issued i lt).0, (v.issued i lt).1);
}

-- A round of `GetJob` of a connected client, whose context is not done, on a well-formed state: it gives
-- the client a job of the highest priority above 0 that waits in the queues; or no job of a priority
-- above 0 waits there, and then it waits at a new channel or answers that there is none, and no job has
-- moved.
pub get_job_lem :
    (client : Bytes) (order : List Bytes) (wait : Bool) (h : Handler) (s : ℕ → Bool)
    → IsSafe h
    → client ≢ []
    → h.client_job client ≡ some s
    → ((j : Job) × (h' : Handler) × (get_job client false order wait h ≡ ok (h', got j))
        × IsGiven client order h j h')
      ⊎ ((q : JobQueues) × (get_job client false order wait h
            ≡ (if wait then ok (record h { queues = q }, waiting h.queues.made) else err no_job))
          × IsSafe (record h { queues = q })
          × IsEmptyHanded order h.queues q)
unfolding get_job
get_job_lem client order wait h s v ne e =
    rw (is_named client ne) (elim (pop_round_lem order wait h.queues v.queues) [
      | inl (j, q, done, is_popped) ↦
          let w = is_popped.0 in
          let without : IsWithout j.job_id h.queues q = is_popped.4 in
          inl (
            j,
            assigned h v client s e j w q without,
            ap (after_pop client h) done ∙ ap (assign client j q h) e,
            (
              is_popped,
              assigned-IsSafe h v client s e j w q without,
              if_same _ _ j.job_id j.job_id refl,
              λ i ne'. if_other _ _ i j.job_id ne',
            ),
          )
      | inr (q, done, is_empty) ↦ inr (
        q,
        ap (after_pop client h) done ∙ after_empty client h q wait,
        unmoved-IsSafe h q v is_empty.1 is_empty.2,
        is_empty,
      )
    ])

-- `PutJob` on a well-formed state, as long as the counter does not overflow: the new id is one higher
-- than the last, and the job waits under it as it was given; no other job has moved.
pub put_job_lem :
    (queue job : Bytes) (priority : ℕ) (h : Handler)
    → IsSafe h
    → h.job_id + 1 < 2 ^ 32
    → let (h', id) = put_job queue job priority h in
      (id ≡ h.job_id + 1)
      × IsSafe h'
      × ((i : ℕ)
          → pending h'.queues i ≡ (
              if i == id
              then some (record { queue = queue; job_id = id; job = job; priority = priority })
              else pending h.queues i))
      × ((i : ℕ) → h'.in_progress i ≡ h.in_progress i)
unfolding put_job
put_job_lem queue job priority h v lt =
    let id : ℕ = (h.job_id + 1) % 2 ^ 32 in
    let is_next : id ≡ h.job_id + 1 = (omega arith) in
    let j : Job = record { queue = queue; job_id = id; job = job; priority = priority } in
    let (well, now, _, _) = push_lem j h.queues v.queues (v.issued id (omega arith)).0 in
    (
      is_next,
      record {
        queues = well;
        held = λ i k c e.
            let (is_k, waits_not, own) = v.held i k c e in
            let old : i ≢ id =
              (λ s. cc (sym e ∙ ap h.in_progress s ∙ (v.issued id (omega arith)).1)) in
            (is_k, now i ∙ if_other _ _ i id old ∙ waits_not, own);
        owned = v.owned;
        issued = λ i lt'. (
          now i ∙ if_other _ _ i id (λ s. absurd (omega arith)) ∙ (v.issued i (omega arith)).0,
          (v.issued i (omega arith)).1,
        );
      },
      now,
      λ i. refl,
    )
