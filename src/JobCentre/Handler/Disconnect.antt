-- ===== src/JobCentre/Handler/Disconnect.antt =====
-- 9-job-centre/main.go: `OnClientDisconnected`.
use protohackers.Prelude.{
  ℕ, ◌<◌, ◌≡◌, ◌≢◌, ◌⊎◌, ◌↔◌, inl, inr, Bool-cases, refl, sym, ap, ◌∙◌, subst, Bool, true, false,
  Option, none, some, List, [], ◌∷◌, Bytes, bytes_eq, bytes_eq_iff, bytes_eq_refl, ==_iff, ◌==◌,
}
use protohackers.JobCentre.Queues.{Job, push}
use protohackers.JobCentre.Queues.Push.{IsWell, pending, push_lem, some-injective}
use protohackers.JobCentre.Handler.{
  Handler, is_own, set_jobs, set_progress, requeue, requeue_all, on_client_disconnected,
}
use protohackers.JobCentre.Handler.Safe.{IsSafe, if_same, if_other}

abbrev pub IsAmong : ℕ → List ℕ → Type 0
IsAmong i [] = ⊥
IsAmong i (k ∷ ks) = (i ≡ k) ⊎ IsAmong i ks

module _ (client : Bytes) (h0 : Handler) (v : IsSafe h0) where
  -- A job is where it was, or was with the client and waits now.
  abbrev HasMoved : Handler → ℕ → Type 0
  HasMoved h i =
      ((h.in_progress i ≡ h0.in_progress i) × (pending h.queues i ≡ pending h0.queues i))
      ⊎ ((j : Job) × (h0.in_progress i ≡ some (j, client))
          × (h.in_progress i ≡ none)
          × (pending h.queues i ≡ some j))

  -- A state inside the loop.
  record IsMidway (h : Handler) : Type 0 where
    queues : IsWell h.queues
    clients : h.client_job ≡ h0.client_job
    counter : h.job_id ≡ h0.job_id
    moved : (i : ℕ) → HasMoved h i

  abbrev requeued : ℕ → Handler → Job → Handler
  requeued id h j = record h { queues = push j h.queues; in_progress = set_progress id none h }

  requeued-IsMidway :
      (id : ℕ) (h : Handler) (j : Job)
      → IsMidway h
      → h0.in_progress id ≡ some (j, client)
      → pending h.queues id ≡ none
      → IsMidway (requeued id h j)
  requeued-IsMidway id h j m e0 w =
      let (is_id, _, _) = v.held id j client e0 in
      let (well, now, _, _) = push_lem j h.queues m.queues (ap (pending h.queues) is_id ∙ w) in
      record {
        queues = well;
        clients = m.clients;
        counter = m.counter;
        moved = λ i. elim (Bool-cases (i == id)) [
          | inl same ↦
              subst (HasMoved (requeued id h j)) (sym ((==_iff i id).0 same))
                (inr (j, e0, if_same _ _ id id refl, now id ∙ if_same _ _ id j.job_id (sym is_id)))
          | inr other ↦
              let ne : i ≢ id = (λ s. cc (sym other ∙ (==_iff i id).1 s)) in
              let p = if_other none (h.in_progress i) i id ne in
              let q = now i ∙ if_other _ _ i j.job_id (λ s. ne (s ∙ is_id)) in
              elim (m.moved i) [
                | inl (a, b) ↦ inl (p ∙ a, q ∙ b)
                | inr (k, a, b, c) ↦ inr (k, a, p ∙ b, q ∙ c)
              ]
        ];
      }

  requeue_lem :
      (id : ℕ) (h : Handler) (o : Option (Job × Bytes))
      → IsMidway h
      → is_own (h0.client_job client) id ≡ true
      → h.in_progress id ≡ o
      → IsMidway (requeue id h o)
        × ((requeue id h o).in_progress id ≡ none)
        × ((i : ℕ) → h.in_progress i ≡ none → (requeue id h o).in_progress i ≡ none)
  requeue_lem id h none m own e = (m, e, λ i n. n)
  requeue_lem id h (some (j, owner)) m own e =
      let (k, e0) = v.owned client id own in
      elim (m.moved id) [
        | inl (a, b) ↦
            let one : ◌≡◌ {A = Job × Bytes} (k, client) (j, owner) =
              (some-injective (sym e0 ∙ sym a ∙ e)) in
            let (_, w, _) = v.held id k client e0 in
            let is_k : k ≡ j = (ap (λ (x : Job × Bytes). x.0) one) in
            (
              requeued-IsMidway id h j m (subst (λ a. h0.in_progress id ≡ some (a, client)) is_k e0)
                  (b ∙ w),
              if_same _ _ id id refl,
              λ i n. elim (Bool-cases (i == id)) [
                | inl same ↦ rw same refl
                | inr other ↦ rw other n
              ],
            )
        | inr (k', a, b, c) ↦ cc (sym b ∙ e)
      ]

  requeue_all_lem :
      (ids : List ℕ) (h : Handler)
      → IsMidway h
      → ((i : ℕ) → IsAmong i ids → is_own (h0.client_job client) i ≡ true)
      → IsMidway (requeue_all ids h)
        × ((i : ℕ) → IsAmong i ids → (requeue_all ids h).in_progress i ≡ none)
        × ((i : ℕ) → h.in_progress i ≡ none → (requeue_all ids h).in_progress i ≡ none)
  unfolding requeue_all
  requeue_all_lem [] h m own = (m, λ i a. absurd a, λ i n. n)
  requeue_all_lem (id ∷ ids) h m own =
      let (m1, gone, still) = requeue_lem id h (h.in_progress id) m (own id (inl refl)) refl in
      let (m2, gone', still') =
        requeue_all_lem ids (requeue id h (h.in_progress id)) m1 (λ i a. own i (inr a)) in
      (
        m2,
        λ i a. elim a [
          | inl e ↦
              still' i
                (subst (λ k. (requeue id h (h.in_progress id)).in_progress k ≡ none) (sym e) gone)
          | inr a' ↦ gone' i a'
        ],
        λ i n. still' i (still i n),
      )

  -- The client leaves the map, and every job of it has been put back.
  abbrev left : Handler → Handler
  left h = record h { client_job = set_jobs client none h.client_job }

  module _ (h : Handler) (m : IsMidway h)
      (gone : (i : ℕ) → is_own (h0.client_job client) i ≡ true → h.in_progress i ≡ none) where
    is_other :
        (i : ℕ) (k : Job) (c : Bytes)
        → h.in_progress i ≡ some (k, c)
        → is_own (h0.client_job c) i ≡ true
        → bytes_eq c client ≡ false
    is_other i k c e own = elim (Bool-cases (bytes_eq c client)) [
      | inl same ↦ cc (
          sym e
          ∙ gone i
              (subst (λ b. is_own (h0.client_job b) i ≡ true) ((bytes_eq_iff c client).0 same) own))
      | inr other ↦ other
    ]

    left-held :
        (i : ℕ) (k : Job) (c : Bytes)
        → h.in_progress i ≡ some (k, c)
        → (k.job_id ≡ i) × (pending h.queues i ≡ none) × (is_own ((left h).client_job c) i ≡ true)
    left-held i k c e = elim (m.moved i) [
      | inl (a, b) ↦
          let (is_k, w, own) = v.held i k c (sym a ∙ e) in
          (
            is_k,
            b ∙ w,
            rw (is_other i k c e own)
                (ap (λ (f : Bytes → Option (ℕ → Bool)). is_own (f c) i) m.clients ∙ own),
          )
      | inr (k', a, b, c') ↦ cc (sym b ∙ e)
    ]

    left-owned :
        (c : Bytes) (i : ℕ)
        → is_own ((left h).client_job c) i ≡ true
        → (k : Job) × (h.in_progress i ≡ some (k, c))
    left-owned c i own = elim (Bool-cases (bytes_eq c client)) [
      | inl same ↦ cc (rw same at own)
      | inr other ↦
          let own' =
            ap (λ (f : Bytes → Option (ℕ → Bool)). is_own (f c) i) (sym m.clients)
            ∙ (rw other at own) in
          let (k, e) = v.owned c i own' in
          elim (m.moved i) [
            | inl (a, b) ↦ (k, a ∙ e)
            | inr (k', a, b, c') ↦
                let names : client ≡ c =
                  (ap (λ (x : Job × Bytes). x.1) (some-injective (sym a ∙ e))) in
                cc (sym other ∙ (bytes_eq_iff c client).1 (sym names))
          ]
    ]

    left-IsSafe : IsSafe (left h)
    left-IsSafe = record {
      queues = m.queues;
      held = left-held;
      owned = left-owned;
      issued = λ i lt.
          let (w, idle) = v.issued i (subst (λ n. n < i) m.counter lt) in
          elim (m.moved i) [
            | inl (a, b) ↦ (b ∙ w, a ∙ idle)
            | inr (k, a, b, c) ↦ cc (sym a ∙ idle)
          ];
    }

-- `OnClientDisconnected` of a client on a well-formed state, whatever the order in which the loop meets
-- its jobs: the client is gone, every job that it had in progress waits in its queue as it was, and every
-- other job is where it was.
pub on_client_disconnected_lem :
    (client : Bytes) (ids : List ℕ) (h : Handler) (s : ℕ → Bool)
    → IsSafe h
    → h.client_job client ≡ some s
    → ((i : ℕ) → IsAmong i ids ↔ (s i ≡ true))
    → let h' = on_client_disconnected client ids h in
      IsSafe h'
      × (h'.client_job client ≡ none)
      × ((i : ℕ) (j : Job)
          → h.in_progress i ≡ some (j, client)
          → (h'.in_progress i ≡ none) × (pending h'.queues i ≡ some j))
      × ((i : ℕ)
          → s i ≡ false
          → (h'.in_progress i ≡ h.in_progress i) × (pending h'.queues i ≡ pending h.queues i))
unfolding on_client_disconnected
on_client_disconnected_lem client ids h s v e covers =
    let start : IsMidway client h v h = (record {
      queues = v.queues;
      clients = refl;
      counter = refl;
      moved = λ i. inl (refl, refl);
    }) in
    let h1 = requeue_all ids h in
    let (m, gone, _) =
      requeue_all_lem client h v ids h start
        (λ i a. ap (λ (o : Option (ℕ → Bool)). is_own o i) e ∙ (covers i).0 a) in
    let gone_own : (i : ℕ) → is_own (h.client_job client) i ≡ true → h1.in_progress i ≡ none =
      (λ i own. gone i ((covers i).1 (ap (λ (o : Option (ℕ → Bool)). is_own o i) (sym e) ∙ own))) in
    rw e (
      left-IsSafe client h v h1 m gone_own,
      rw (bytes_eq_refl client) refl,
      λ i j e'. elim (m.moved i) [
        | inl (a, b) ↦ cc (sym e' ∙ sym a ∙ gone_own i (v.held i j client e').2)
        | inr (k, a, b, c) ↦
            (b, c ∙ ap (λ (x : Job × Bytes). some x.0) (some-injective (sym a ∙ e')))
      ],
      λ i n. elim (m.moved i) [
        | inl same ↦ same
        | inr (k, a, b, c) ↦
            cc
              (sym n ∙ ap (λ (o : Option (ℕ → Bool)). is_own o i) (sym e) ∙ (v.held i k client a).2)
      ],
    )
