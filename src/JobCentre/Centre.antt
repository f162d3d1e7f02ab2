-- ===== src/JobCentre/Centre.antt =====
-- What 9-job-centre promises: a job centre as a map from ids to places, and the steps that it may take.
-- 9-job-centre/main.go and 9-job-centre/proto/server.go are shown to follow it.
mod Tests
pub mod View
pub mod Clients
pub mod Exchanges
pub mod Requests
pub mod Runs
pub mod History
use protohackers.Prelude.{
  ℕ, ◌≤◌, ◌≡◌, ◌≢◌, Option, none, some, Bool, true, false, List, [], ◌∷◌, Bytes, bytes_eq, ◌==◌,
  if◌then◌else◌,
}
use protohackers.JobCentre.Queues.{Job}
use protohackers.JobCentre.Queues.Pop.{In}

-- Where the job of an id is.
pub data Place : Type 0 where
  nowhere : Place
  in_queue : Job → Place
  with_client : Job → Bytes → Place

abbrev pub Places : Type 0
Places = ℕ → Place

-- What a client sees of a step.
pub data Event : Type 0 where
  put : Job → Event
  given : (client : Bytes) → List Bytes → Job → Event
  none_given : List Bytes → Event
  deleted not_found : ℕ → Event
  aborted not_aborted : (client : Bytes) → ℕ → Event
  left : (client : Bytes) → Event

-- Only the job of one id has moved.
abbrev pub Moves : ℕ → Place → Places → Places → Type 0
Moves id p m m' = (i : ℕ) → m' i ≡ (if i == id then p else m i)

abbrev pub Stays : Places → Places → Type 0
Stays m m' = (i : ℕ) → m' i ≡ m i

-- No job in the queues has a priority above `top`.
abbrev pub NoneAbove : Places → List Bytes → ℕ → Type 0
NoneAbove m queues top = (i : ℕ) (k : Job) → m i ≡ in_queue k → In k.queue queues → k.priority ≤ top

abbrev pub leave : Bytes → Place → Place
leave client nowhere = nowhere
leave client (in_queue j) = in_queue j
leave client (with_client j c) = if bytes_eq c client then in_queue j else with_client j c

pub data Step (m m' : Places) : Event → Type 0 where
  puts : {j : Job} → m j.job_id ≡ nowhere → Moves j.job_id (in_queue j) m m' → Step m m' (put j)
  gives :
      {client : Bytes} {queues : List Bytes} {j : Job}
      → m j.job_id ≡ in_queue j
      → In j.queue queues
      → NoneAbove m queues j.priority
      → Moves j.job_id (with_client j client) m m'
      → Step m m' (given client queues j)
  gives_none :
      {queues : List Bytes} → NoneAbove m queues 0 → Stays m m' → Step m m' (none_given queues)
  deletes : {id : ℕ} → m id ≢ nowhere → Moves id nowhere m m' → Step m m' (deleted id)
  misses : {id : ℕ} → m id ≡ nowhere → Stays m m' → Step m m' (not_found id)
  aborts :
      {client : Bytes} {id : ℕ} {j : Job}
      → m id ≡ with_client j client
      → Moves id (in_queue j) m m'
      → Step m m' (aborted client id)
  refuses :
      {client : Bytes} {id : ℕ}
      → ((j : Job) → m id ≢ with_client j client)
      → Stays m m'
      → Step m m' (not_aborted client id)
  leaves : {client : Bytes} → ((i : ℕ) → m' i ≡ leave client (m i)) → Step m m' (left client)

-- The events of a run, from an empty centre.
pub data Run : List Event → Places → Type 0 where
  start : {m : Places} → ((i : ℕ) → m i ≡ nowhere) → Run [] m
  extend : {es : List Event} {e : Event} {m m' : Places} → Run es m → Step m m' e → Run (e ∷ es) m'
