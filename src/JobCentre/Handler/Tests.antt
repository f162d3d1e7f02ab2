-- ===== src/JobCentre/Handler/Tests.antt =====
-- 9-job-centre/main.go: the results at a handler with two clients and two jobs.
use protohackers.Prelude.{
  ℕ, ◌≡◌, ◌≢◌, ◌⊎◌, refl, ap, sym, subst, inl, inr, Bool-cases, true, false, Option, none, some,
  List, [], ◌∷◌, Bytes, codes, bytes_eq, bytes_eq_iff, ==_iff, arith, ◌==◌, if◌then◌else◌, ok, err,
}
use protohackers.JobCentre.Queues.{Job, JobQueues, new_job_queues}
use protohackers.JobCentre.Queues.Push.{pending, some-injective}
use protohackers.JobCentre.Queues.Pop.{IsEmptyHanded}
use protohackers.JobCentre.Handler.{
  on_client_disconnected, Handler, no_job, not_allowed, got, waiting, is_own, put_job, get_job,
  delete_job, abort_job,
}
use protohackers.JobCentre.Handler.Safe.{IsSafe, IsReleased, abort_job_lem}
use protohackers.JobCentre.Handler.Delete.{delete_job_lem}
use protohackers.JobCentre.Handler.Disconnect.{on_client_disconnected_lem}
use protohackers.JobCentre.Handler.Give.{IsGiven, put_job_lem, get_job_lem}

abbrev alice : Bytes
alice = codes "alice"

abbrev first_job : Job
first_job = record { queue = codes "a"; job_id = 1; job = codes "{}"; priority = 3 }

-- The first job is in progress with a client.
abbrev one_in_progress : Handler
one_in_progress = record {
  job_id = 1;
  queues = new_job_queues;
  client_job = λ c. if bytes_eq c alice then some (λ i. i == 1) else none;
  in_progress = λ i. if i == 1 then some (first_job, alice) else none;
}

one_in_progress-IsSafe : IsSafe one_in_progress
one_in_progress-IsSafe = record {
  queues = record { queues = λ n h e. cc; located = λ i n p e. cc };
  held = λ i j c e. elim (Bool-cases (i == 1)) [
    | inl same ↦
        let pair : ◌≡◌ {A = Job × Bytes} (first_job, alice) (j, c) =
          (some-injective (rw same at e)) in
        subst
          (λ (x : Job × Bytes).
            (x.0.job_id ≡ i)
            × (◌≡◌ {A = Option Job} none none)
            × (is_own (one_in_progress.client_job x.1) i ≡ true))
          pair (sym ((==_iff i 1).0 same), refl, same)
    | inr other ↦ cc (rw other at e)
  ];
  owned = λ c i own. elim (Bool-cases (bytes_eq c alice)) [
    | inl mine ↦
        let is_one : (i == 1) ≡ true = (rw mine at own) in
        (
          first_job,
          rw is_one (ap (λ (b : Bytes). some (first_job, b)) (sym ((bytes_eq_iff c alice).0 mine))),
        )
    | inr theirs ↦ cc (rw theirs at own)
  ];
  issued = λ i lt. elim (Bool-cases (i == 1)) [
    | inl same ↦ absurd (omega (arith, (==_iff i 1).0 same))
    | inr other ↦ (refl, rw other refl)
  ];
}

abort_job_lem_example :
    ((j : Job) × (h' : Handler) × (one_in_progress.in_progress 1 ≡ some (j, alice))
      × (abort_job alice 1 one_in_progress ≡ ok h')
      × IsSafe h'
      × IsReleased 1 (some j) one_in_progress h')
    ⊎ ((one_in_progress.in_progress 1 ≡ none) × (abort_job alice 1 one_in_progress ≡ err no_job))
    ⊎ ((j : Job) × (owner : Bytes) × (one_in_progress.in_progress 1 ≡ some (j, owner))
        × (owner ≢ alice)
        × (abort_job alice 1 one_in_progress ≡ err not_allowed))
abort_job_lem_example = abort_job_lem alice 1 one_in_progress one_in_progress-IsSafe (λ e. cc)

delete_job_lem_example :
    ((h' : Handler) × (delete_job 1 one_in_progress ≡ ok h')
      × ((pending new_job_queues 1 ≢ none) ⊎ (one_in_progress.in_progress 1 ≢ none))
      × IsSafe h'
      × IsReleased 1 none one_in_progress h')
    ⊎ ((pending new_job_queues 1 ≡ none)
        × (one_in_progress.in_progress 1 ≡ none)
        × (delete_job 1 one_in_progress ≡ err no_job))
delete_job_lem_example = delete_job_lem 1 one_in_progress one_in_progress-IsSafe

abbrev two_jobs : Handler
two_jobs = (put_job (codes "b") (codes "{}") 7 one_in_progress).0

abbrev second_id : ℕ
second_id = (put_job (codes "b") (codes "{}") 7 one_in_progress).1

two_jobs-IsSafe : IsSafe two_jobs
two_jobs-IsSafe =
    (put_job_lem (codes "b") (codes "{}") 7 one_in_progress one_in_progress-IsSafe (omega arith)).1

abbrev asked : List Bytes
asked = codes "b" ∷ []

two_jobs-connected : two_jobs.client_job alice ≡ some (λ i. i == 1)
unfolding put_job
two_jobs-connected = refl

get_job_lem_example :
    ((j : Job) × (h' : Handler) × (get_job alice false asked true two_jobs ≡ ok (h', got j))
      × IsGiven alice asked two_jobs j h')
    ⊎ ((q : JobQueues) × (get_job alice false asked true two_jobs
          ≡ ok (record two_jobs { queues = q }, waiting two_jobs.queues.made))
        × IsSafe (record two_jobs { queues = q })
        × IsEmptyHanded asked two_jobs.queues q)
get_job_lem_example =
    get_job_lem alice asked true two_jobs (λ i. i == 1) two_jobs-IsSafe (λ e. cc) two_jobs-connected

abbrev alone : Handler
alone = on_client_disconnected alice (1 ∷ []) one_in_progress

on_client_disconnected_lem_example :
    IsSafe alone
    × (alone.client_job alice ≡ none)
    × ((i : ℕ) (j : Job)
        → one_in_progress.in_progress i ≡ some (j, alice)
        → (alone.in_progress i ≡ none) × (pending alone.queues i ≡ some j))
    × ((i : ℕ)
        → (i == 1) ≡ false
        → (alone.in_progress i ≡ one_in_progress.in_progress i)
          × (pending alone.queues i ≡ pending new_job_queues i))
on_client_disconnected_lem_example =
    on_client_disconnected_lem alice (1 ∷ []) one_in_progress (λ i. i == 1) one_in_progress-IsSafe
      refl
      (λ i. (
        λ a. elim a [ inl e ↦ (==_iff i 1).1 e | inr a' ↦ absurd a' ],
        λ t. inl ((==_iff i 1).0 t),
      ))
