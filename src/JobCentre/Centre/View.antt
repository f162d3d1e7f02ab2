-- ===== src/JobCentre/Centre/View.antt =====
-- 9-job-centre/main.go: each operation of the handler is a step of the job centre.
use protohackers.Prelude.{
  ℕ, ◌+◌, ◌^◌, ◌<◌, ◌≡◌, ◌≢◌, ◌∙◌, ◌⊎◌, ◌↔◌, inl, inr, refl, sym, ap, Option, none, some, Bool,
  true, false, Bool-cases, List, [], Bytes, bytes_eq, bytes_eq_iff, bytes_eq_refl, ==_iff, ◌==◌,
  if◌then◌else◌, arith, ok, err,
}
use protohackers.JobCentre.Queues.{Job, JobQueues}
use protohackers.JobCentre.Queues.Push.{pending, some-injective}
use protohackers.JobCentre.Queues.Pop.{IsEmptyHanded}
use protohackers.JobCentre.Handler.{
  Handler, no_job, not_allowed, got, waiting, is_own, put_job, get_job, delete_job, abort_job,
  on_client_disconnected,
}
use protohackers.JobCentre.Handler.Safe.{IsSafe, IsReleased, abort_job_lem, if_other}
use protohackers.JobCentre.Handler.Delete.{delete_job_lem}
use protohackers.JobCentre.Handler.Give.{IsGiven, put_job_lem, get_job_lem}
use protohackers.JobCentre.Handler.Disconnect.{IsAmong, on_client_disconnected_lem}
use protohackers.JobCentre.Centre.{
  Place, nowhere, in_queue, with_client, Places, put, given, none_given, deleted, not_found,
  aborted, not_aborted, left, Moves, leave, Step, puts, gives, gives_none, deletes, misses, aborts,
  refuses, leaves,
}

abbrev place_of : Option Job → Option (Job × Bytes) → Place
place_of (some j) o = in_queue j
place_of none none = nowhere
place_of none (some (j, c)) = with_client j c

-- Where the handler keeps the job of an id.
abbrev pub view : Handler → Places
view h i = place_of (pending h.queues i) (h.in_progress i)

place_of-cong :
    (p p' : Option Job) (o o' : Option (Job × Bytes))
    → p ≡ p'
    → o ≡ o'
    → place_of p o ≡ place_of p' o'
place_of-cong p p' o o' e f = ap (λ p. place_of p o) e ∙ ap (place_of p') f

queued :
    (p : Option Job) (o : Option (Job × Bytes)) (j : Job) → place_of p o ≡ in_queue j → p ≡ some j
queued (some k) o j e = cc
queued none none j e = cc
queued none (some (k, c)) j e = cc

held_by :
    (p : Option Job) (o : Option (Job × Bytes)) (j : Job) (c : Bytes)
    → place_of p o ≡ with_client j c
    → o ≡ some (j, c)
held_by (some k) o j c e = cc
held_by none none j c e = cc
held_by none (some (k, d)) j c e = cc

absent :
    (p : Option Job) (o : Option (Job × Bytes)) → place_of p o ≡ nowhere → (p ≡ none) × (o ≡ none)
absent (some k) o e = cc
absent none none e = (refl, refl)
absent none (some (k, c)) e = cc

if_place :
    (i id : ℕ) (p q r : Place)
    → (i ≡ id → r ≡ p)
    → (i ≢ id → r ≡ q)
    → r ≡ (if i == id then p else q)
if_place i id p q r same other = elim (Bool-cases (i == id)) [
  | inl e ↦ rw e (same ((==_iff i id).0 e))
  | inr e ↦ rw e (other (λ s. cc (sym e ∙ (==_iff i id).1 s)))
]

module _ (h : Handler) (v : IsSafe h) where
  view-held :
      (i : ℕ) (j : Job) (c : Bytes) → h.in_progress i ≡ some (j, c) → view h i ≡ with_client j c
  view-held i j c e = place_of-cong _ none _ (some (j, c)) (v.held i j c e).1 e

  released-Moves :
      (id : ℕ) (o : Option Job) (h' : Handler)
      → IsReleased id o h h'
      → Moves id (place_of o none) (view h) (view h')
  released-Moves id o h' (idle, waits, others) i =
      if_place i id (place_of o none) (view h i) (view h' i)
        (λ e. ap (view h') e ∙ place_of-cong _ o _ none waits idle)
        (λ ne. let (a, b) = others i ne in place_of-cong _ _ _ _ b a)

  pub put_job_refines :
      (queue job : Bytes) (priority : ℕ)
      → h.job_id + 1 < 2 ^ 32
      → let (h', id) = put_job queue job priority h in
        let j : Job = record { queue = queue; job_id = id; job = job; priority = priority } in
        IsSafe h' × Step (view h) (view h') (put j)
  put_job_refines queue job priority lt =
      let (h', id) = put_job queue job priority h in
      let j : Job = record { queue = queue; job_id = id; job = job; priority = priority } in
      let (next, safe, waits, busy) = put_job_lem queue job priority h v lt in
      let (no_wait, idle) = v.issued id (omega arith) in
      (
        safe,
        puts (place_of-cong _ none _ none no_wait idle) (λ i.
            if_place i id (in_queue j) (view h i) (view h' i)
              (λ e.
                place_of-cong _ (some j) _ none (waits i ∙ rw ((==_iff i id).1 e) refl)
                  (busy i ∙ ap h.in_progress e ∙ idle))
              (λ ne. place_of-cong _ _ _ _ (waits i ∙ rest i ne) (busy i))),
      )
    where
      rest :
          (i : ℕ)
          → i ≢ (put_job queue job priority h).1
          → (if i == (put_job queue job priority h).1
              then some (record {
                queue = queue;
                job_id = (put_job queue job priority h).1;
                job = job;
                priority = priority;
              })
              else pending h.queues i)
            ≡ pending h.queues i
      rest i ne = if_other _ _ i (put_job queue job priority h).1 ne

  given_refines :
      (client : Bytes) (order : List Bytes) (j : Job) (h' : Handler)
      → IsGiven client order h j h'
      → Step (view h) (view h') (given client order j)
  given_refines client order j h' ((waits, among, pos, best, (well, without)), safe, mine, others) =
      gives (place_of-cong _ (some j) _ _ waits refl) among (λ i k e. best i k (queued _ _ k e))
        (λ i.
          if_place i j.job_id (with_client j client) (view h i) (view h' i)
            (λ e.
              place_of-cong _ none _ (some (j, client))
                (without i ∙ rw ((==_iff i j.job_id).1 e) refl) (ap h'.in_progress e ∙ mine))
            (λ ne. place_of-cong _ _ _ _ (without i ∙ if_other _ _ i j.job_id ne) (others i ne)))

  abbrev GetRefines : Bytes → List Bytes → Bool → Type 0
  GetRefines client order wait =
      ((j : Job) × (h' : Handler) × (get_job client false order wait h ≡ ok (h', got j))
        × IsSafe h'
        × Step (view h) (view h') (given client order j))
      ⊎ ((wait ≡ true)
          × (h' : Handler) × (get_job client false order wait h ≡ ok (h', waiting h.queues.made))
          × IsSafe h'
          × (h'.client_job ≡ h.client_job)
          × (h'.job_id ≡ h.job_id)
          × Step (view h) (view h') (none_given order))
      ⊎ ((wait ≡ false)
          × (get_job client false order wait h ≡ err no_job)
          × Step (view h) (view h) (none_given order))

  after_none :
      (client : Bytes) (order : List Bytes) (wait : Bool) (q : JobQueues)
      → get_job client false order wait h
        ≡ (if wait then ok (record h { queues = q }, waiting h.queues.made) else err no_job)
      → IsSafe (record h { queues = q })
      → IsEmptyHanded order h.queues q
      → GetRefines client order wait
  after_none client order true q done safe (empty, well, same) = inr (
      inl (
        refl,
        record h { queues = q },
        done,
        safe,
        refl,
        refl,
        gives_none (λ i k p m. omega (arith, empty i k (queued _ _ k p) m))
            (λ i. place_of-cong _ _ _ _ (same i) refl),
      ))
  after_none client order false q done safe (empty, _, _) = inr (
      inr (
        refl,
        done,
        gives_none (λ i k p m. omega (arith, empty i k (queued _ _ k p) m)) (λ i. refl),
      ))

  pub get_job_refines :
      (client : Bytes) (order : List Bytes) (wait : Bool) (s : ℕ → Bool)
      → client ≢ []
      → h.client_job client ≡ some s
      → GetRefines client order wait
  get_job_refines client order wait s ne e = elim (get_job_lem client order wait h s v ne e) [
    | inl (j, h', done, is_given) ↦
        inl (j, h', done, is_given.1, given_refines client order j h' is_given)
    | inr (q, done, safe, empty) ↦ after_none client order wait q done safe empty
  ]

  abbrev DeleteRefines : ℕ → Type 0
  DeleteRefines id =
      ((h' : Handler) × (delete_job id h ≡ ok h')
        × IsSafe h'
        × Step (view h) (view h') (deleted id))
      ⊎ ((delete_job id h ≡ err no_job) × Step (view h) (view h) (not_found id))

  pub delete_job_refines : (id : ℕ) → DeleteRefines id
  delete_job_refines id = elim (delete_job_lem id h v) [
    | inl (h', done, found, safe, gone) ↦ inl (
      h',
      done,
      safe,
      deletes (λ e. let (a, b) = absent _ _ e in (elim found [ inl p ↦ p a | inr p ↦ p b ]))
          (released-Moves id none h' gone),
    )
    | inr (no_wait, idle, done) ↦
        inr (done, misses (place_of-cong _ none _ none no_wait idle) (λ i. refl))
  ]

  abbrev AbortRefines : Bytes → ℕ → Type 0
  AbortRefines client id =
      ((h' : Handler) × (abort_job client id h ≡ ok h')
        × IsSafe h'
        × Step (view h) (view h') (aborted client id))
      ⊎ (((abort_job client id h ≡ err no_job) ⊎ (abort_job client id h ≡ err not_allowed))
          × Step (view h) (view h) (not_aborted client id))

  pub abort_job_refines : (client : Bytes) (id : ℕ) → client ≢ [] → AbortRefines client id
  abort_job_refines client id ne = elim (abort_job_lem client id h v ne) [
    | inl (j, h', e, done, safe, released) ↦
        inl (
          h',
          done,
          safe,
          aborts (view-held id j client e) (released-Moves id (some j) h' released),
        )
    | inr (inl (idle, done)) ↦
        inr (inl done, refuses (λ j e. cc (sym idle ∙ held_by _ _ j client e)) (λ i. refl))
    | inr (inr (j, owner, e, other, done)) ↦ inr (
      inr done,
      refuses
          (λ k e'.
            other
              (ap (λ (x : Job × Bytes). x.1) (some-injective (sym e ∙ held_by _ _ k client e'))))
          (λ i. refl),
    )
  ]

  left_from :
      (client : Bytes) (p p' : Option Job) (o o' : Option (Job × Bytes))
      → p' ≡ p
      → o' ≡ o
      → ((j : Job) (c : Bytes) → p ≡ none → o ≡ some (j, c) → c ≢ client)
      → place_of p' o' ≡ leave client (place_of p o)
  left_from client (some j) p' o o' e f others = place_of-cong p' (some j) o' o e f
  left_from client none p' none o' e f others = place_of-cong p' none o' none e f
  left_from client none p' (some (j, c)) o' e f others =
      place_of-cong p' none o' (some (j, c)) e f ∙ elim (Bool-cases (bytes_eq c client)) [
        | inl same ↦ absurd (others j c refl refl ((bytes_eq_iff c client).0 same))
        | inr other ↦ rw other refl
      ]

  pub on_client_disconnected_refines :
      (client : Bytes) (ids : List ℕ) (s : ℕ → Bool)
      → h.client_job client ≡ some s
      → ((i : ℕ) → IsAmong i ids ↔ (s i ≡ true))
      → let h' = on_client_disconnected client ids h in
        IsSafe h' × Step (view h) (view h') (left client)
  on_client_disconnected_refines client ids s e covers =
      let h' = on_client_disconnected client ids h in
      let (safe, _, moved, kept) = on_client_disconnected_lem client ids h s v e covers in
      (
        safe,
        leaves (λ i. elim (Bool-cases (s i)) [
          | inl own ↦
              let (j, e') = v.owned client i (ap (λ o. is_own o i) e ∙ own) in
              let (idle, waits) = moved i j e' in
              place_of-cong _ (some j) _ _ waits refl
              ∙ sym (ap (leave client) (view-held i j client e') ∙ rw (bytes_eq_refl client) refl)
          | inr not_own ↦
              let (b, a) = kept i not_own in
              left_from client (pending h.queues i) (pending h'.queues i) (h.in_progress i)
                (h'.in_progress i) a b
                (λ j c p o is_client. cc (
                  sym not_own
                  ∙ sym (ap (λ o. is_own o i) (ap h.client_job is_client ∙ e))
                  ∙ (v.held i j c o).2))
        ]),
      )
