-- ===== src/JobCentre/Handler/Safe.antt =====
-- 9-job-centre/main.go: every job is in one place.
use protohackers.Prelude.{
  ℕ, ◌<◌, ◌≡◌, ◌≢◌, ◌⊎◌, inl, inr, refl, sym, ap, ◌∙◌, subst, Bool, true, false, Option, none, some,
  [], Bytes, bytes_eq, bytes_eq_iff, ==_iff, ◌==◌, if◌then◌else◌, arith, Bool-cases, ok, err,
}
use protohackers.JobCentre.Queues.{Job, JobQueues, push}
use protohackers.JobCentre.Queues.Push.{IsWell, pending, push_lem, some-injective}
use protohackers.JobCentre.Handler.{
  Handler, no_job, not_allowed, is_own, set_progress, drop_job, abort_progress, abort_job,
}

-- A job in progress is held by one client, and waits in no queue; and no job has an id that was not given out.
pub record IsSafe (h : Handler) : Type 0 where
  pub queues : IsWell h.queues
  pub held :
      (i : ℕ) (j : Job) (c : Bytes)
      → h.in_progress i ≡ some (j, c)
      → (j.job_id ≡ i) × (pending h.queues i ≡ none) × (is_own (h.client_job c) i ≡ true)
  pub owned :
      (c : Bytes) (i : ℕ)
      → is_own (h.client_job c) i ≡ true
      → (j : Job) × (h.in_progress i ≡ some (j, c))
  pub issued : (i : ℕ) → h.job_id < i → (pending h.queues i ≡ none) × (h.in_progress i ≡ none)

pub own_at :
    (h : Handler) (client : Bytes) (o : Option (ℕ → Bool)) (c : Bytes) (i : ℕ)
    → h.client_job client ≡ o
    → bytes_eq c client ≡ true
    → is_own (h.client_job c) i ≡ is_own o i
own_at h client o c i e same =
    ap (λ (o : Option (ℕ → Bool)). is_own o i)
      (ap h.client_job ((bytes_eq_iff c client).0 same) ∙ e)

-- What a client holds after a job was dropped.
own_dropped :
    (h : Handler) (client : Bytes) (id : ℕ) (o : Option (ℕ → Bool)) (c : Bytes) (i : ℕ)
    → h.client_job client ≡ o
    → is_own (drop_job client id h o c) i ≡ (
        if bytes_eq c client
        then (if i == id then false else is_own (h.client_job c) i)
        else is_own (h.client_job c) i)
own_dropped h client id none c i e = elim (Bool-cases (bytes_eq c client)) [
  | inl same ↦ rw (same, own_at h client none c i e same) (ground arith)
  | inr other ↦ rw other refl
]
own_dropped h client id (some s) c i e = elim (Bool-cases (bytes_eq c client)) [
  | inl same ↦ rw (same, own_at h client (some s) c i e same) refl
  | inr other ↦ rw other refl
]

module _ (h : Handler) (v : IsSafe h) (id : ℕ) (j : Job) (owner : Bytes)
    (e : h.in_progress id ≡ some (j, owner)) (q : JobQueues) where
  -- The job is no longer in progress, and the queues are `q`.
  abbrev pub released : Handler
  released = record h {
    queues = q;
    client_job = drop_job owner id h (h.client_job owner);
    in_progress = set_progress id none h;
  }

  released-held :
      ((i : ℕ) → i ≢ id → pending q i ≡ pending h.queues i)
      → (i : ℕ) (k : Job) (c : Bytes) → released.in_progress i ≡ some (k, c)
      → (k.job_id ≡ i) × (pending q i ≡ none) × (is_own (released.client_job c) i ≡ true)
  released-held others i k c e' = elim (Bool-cases (i == id)) [
    | inl same ↦ cc (rw same at e')
    | inr other ↦
        let (is_k, waits_not, own) = v.held i k c (rw other at e') in
        (
          is_k,
          others i (λ s. cc (sym other ∙ (==_iff i id).1 s)) ∙ waits_not,
          own_dropped h owner id (h.client_job owner) c i refl ∙ rw (other, own) (ground arith),
        )
  ]

  released-owned :
      (c : Bytes) (i : ℕ)
      → is_own (released.client_job c) i ≡ true
      → (k : Job) × (released.in_progress i ≡ some (k, c))
  released-owned c i own =
      let was = sym (own_dropped h owner id (h.client_job owner) c i refl) ∙ own in
      elim (Bool-cases (i == id)) [
        | inl same ↦ elim (Bool-cases (bytes_eq c owner)) [
          | inl mine ↦ cc (rw (mine, same) at was)
          | inr theirs ↦
              let (k, e') = v.owned c i (rw theirs at was) in
              let one : ◌≡◌ {A = Option (Job × Bytes)} (some (j, owner)) (some (k, c)) =
                (sym e ∙ ap h.in_progress (sym ((==_iff i id).0 same)) ∙ e') in
              let names : c ≡ owner = (sym (ap (λ (x : Job × Bytes). x.1) (some-injective one))) in
              cc (sym theirs ∙ (bytes_eq_iff c owner).1 names)
        ]
        | inr other ↦
            let own' : is_own (h.client_job c) i ≡ true = (elim (Bool-cases (bytes_eq c owner)) [
              | inl mine ↦ rw (mine, other) at was
              | inr theirs ↦ rw theirs at was
            ]) in
            let (k, e') = v.owned c i own' in (k, rw other e')
      ]

  pub released-IsSafe :
      IsWell q → ((i : ℕ) → i ≢ id → pending q i ≡ pending h.queues i) → IsSafe released
  released-IsSafe well others = record {
    queues = well;
    held = released-held others;
    owned = released-owned;
    issued = λ i lt. elim (Bool-cases (i == id)) [
      | inl same ↦ cc (sym e ∙ ap h.in_progress (sym ((==_iff i id).0 same)) ∙ (v.issued i lt).1)
      | inr other ↦ (
        others i (λ s. cc (sym other ∙ (==_iff i id).1 s)) ∙ (v.issued i lt).0,
        rw other (v.issued i lt).1,
      )
    ];
  }

-- Only the job of `id` has left its client, and what waits for it is `o` now.
abbrev pub IsReleased : ℕ → Option Job → Handler → Handler → Type 0
IsReleased id o h h' =
    (h'.in_progress id ≡ none)
    × (pending h'.queues id ≡ o)
    × ((i : ℕ)
        → i ≢ id
        → (h'.in_progress i ≡ h.in_progress i) × (pending h'.queues i ≡ pending h.queues i))

pub if_same : {A : Type 0} (x y : A) (i k : ℕ) → i ≡ k → (if i == k then x else y) ≡ x
if_same x y i k e = rw ((==_iff i k).1 e) refl

pub if_other : {A : Type 0} (x y : A) (i k : ℕ) → i ≢ k → (if i == k then x else y) ≡ y
if_other x y i k ne = elim (Bool-cases (i == k)) [
  | inl same ↦ absurd (ne ((==_iff i k).0 same))
  | inr other ↦ rw other refl
]

-- The job that its client gives back, put into its queue.
abort_own :
    (client : Bytes) (id : ℕ) (h : Handler) (v : IsSafe h) (j : Job)
    (e : h.in_progress id ≡ some (j, client))
    → IsSafe (released h v id j client e (push j h.queues))
      × IsReleased id (some j) h (released h v id j client e (push j h.queues))
abort_own client id h v j e =
    let (is_id, waits_not, _) = v.held id j client e in
    let (well, now, _, _) =
      push_lem j h.queues v.queues (ap (pending h.queues) is_id ∙ waits_not) in
    let others : (i : ℕ) → i ≢ id → pending (push j h.queues) i ≡ pending h.queues i =
      (λ i ne. now i ∙ if_other _ _ i j.job_id (λ s. ne (s ∙ is_id))) in
    (
      released-IsSafe h v id j client e (push j h.queues) well others,
      (
        if_same _ _ id id refl,
        now id ∙ if_same _ _ id j.job_id (sym is_id),
        λ i ne. (if_other _ _ i id ne, others i ne),
      ),
    )

pub is_named : (client : Bytes) → client ≢ [] → bytes_eq client [] ≡ false
is_named client ne = elim (Bool-cases (bytes_eq client [])) [
  | inl same ↦ absurd (ne ((bytes_eq_iff client []).0 same))
  | inr other ↦ other
]

-- `AbortJob` of a client on a well-formed state: for a job that the client holds it puts the job back
-- into its queue as it was and takes it from the client, and changes no other; for any other job it
-- changes nothing, and says whether the job is in progress with another client.
pub abort_job_lem :
    (client : Bytes) (id : ℕ) (h : Handler)
    → IsSafe h
    → client ≢ []
    → ((j : Job) × (h' : Handler) × (h.in_progress id ≡ some (j, client))
        × (abort_job client id h ≡ ok h')
        × IsSafe h'
        × IsReleased id (some j) h h')
      ⊎ ((h.in_progress id ≡ none) × (abort_job client id h ≡ err no_job))
      ⊎ ((j : Job) × (owner : Bytes) × (h.in_progress id ≡ some (j, owner))
          × (owner ≢ client)
          × (abort_job client id h ≡ err not_allowed))
unfolding abort_job
abort_job_lem client id h v ne = rw (is_named client ne) (go (h.in_progress id) refl)
  where
    go :
        (o : Option (Job × Bytes))
        → h.in_progress id ≡ o
        → ((j : Job) × (h' : Handler) × (h.in_progress id ≡ some (j, client))
            × (abort_progress client id h (h.in_progress id) ≡ ok h')
            × IsSafe h'
            × IsReleased id (some j) h h')
          ⊎ ((h.in_progress id ≡ none)
              × (abort_progress client id h (h.in_progress id) ≡ err no_job))
          ⊎ ((j : Job) × (owner : Bytes) × (h.in_progress id ≡ some (j, owner))
              × (owner ≢ client)
              × (abort_progress client id h (h.in_progress id) ≡ err not_allowed))
    go none e = inr (inl (e, ap (abort_progress client id h) e))
    go (some (j, owner)) e = elim (Bool-cases (is_own (h.client_job client) id)) [
      | inl own ↦
          let (k, e') = v.owned client id own in
          let (safe, released_) = abort_own client id h v k e' in
          inl (
            k,
            released h v id k client e' (push k h.queues),
            e',
            ap (abort_progress client id h) e' ∙ rw own refl,
            safe,
            released_,
          )
      | inr not_own ↦ inr (
          inr (
            j,
            owner,
            e,
            λ s. cc (
                sym not_own
                ∙ subst (λ c. is_own (h.client_job c) id ≡ true) s (v.held id j owner e).2),
            ap (abort_progress client id h) e ∙ rw not_own refl,
          ))
    ]
