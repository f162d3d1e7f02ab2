-- ===== src/JobCentre/Handler.antt =====
-- 9-job-centre/main.go, the type `queueHandler`. A request is one step: what may come between the
-- queues' lock and the handler's is not modelled. The set of a client's jobs is its test.
mod Tests
pub mod Safe
pub mod Delete
pub mod Give
pub mod Disconnect
use protohackers.Prelude.{
  ℕ, zero, suc, ◌+◌, ◌%◌, ◌^◌, Bool, true, false, List, [], ◌∷◌, Option, none, some, Result, ok,
  ◌>>=◌, err, Bytes, bytes_eq, ◌==◌, if◌then◌else◌,
}
use protohackers.JobCentre.Queues.{
  Job, JobQueues, Error as QueuesError, job_queue_empty, job_queue_not_found, nil_queue,
  out_of_range, new_job_queues, push, remove, pop_round, Popped, popped, queue_empty, cancelled,
  waits,
}

pub record Handler : Type 0 where
  pub job_id : ℕ  -- uint32
  pub queues : JobQueues
  pub client_job : Bytes → Option (ℕ → Bool)
  pub in_progress : ℕ → Option (Job × Bytes)

abbrev pub init_queue_handler : Handler
init_queue_handler = record {
  job_id = 0;
  queues = new_job_queues;
  client_job = λ c. none;
  in_progress = λ i. none;
}

unfoldable pub put_job : Bytes → Bytes → ℕ → Handler → Handler × ℕ
put_job queue job priority h =
    let id = (h.job_id + 1) % 2 ^ 32 in
    let j : Job = record { queue = queue; job_id = id; job = job; priority = priority } in
    (record h { job_id = id; queues = push j h.queues }, id)

-- `panics` is the write to a map that is nil, or a panic of the queues.
pub data Error : Type 0 where
  no_client no_job not_allowed stopped panics : Error

-- What a round of `GetJob` ends with; a call that waits goes on with the next round.
pub data Got : Type 0 where
  got : Job → Got
  waiting : ℕ → Got

abbrev pub set_jobs :
    Bytes → Option (ℕ → Bool) → (Bytes → Option (ℕ → Bool)) → Bytes → Option (ℕ → Bool)
set_jobs c s m d = if bytes_eq d c then s else m d

abbrev pub with_job : ℕ → (ℕ → Bool) → ℕ → Bool
with_job id s i = if i == id then true else s i

abbrev pub without_job : ℕ → (ℕ → Bool) → ℕ → Bool
without_job id s i = if i == id then false else s i

abbrev pub set_progress : ℕ → Option (Job × Bytes) → Handler → ℕ → Option (Job × Bytes)
set_progress id o h i = if i == id then o else h.in_progress i

-- The two maps take the job that the queues gave.
abbrev pub assign :
    Bytes → Job → JobQueues → Handler → Option (ℕ → Bool) → Result Error (Handler × Got)
assign client j queues h none = err panics
assign client j queues h (some s) = ok (
  record h {
    queues = queues;
    client_job = set_jobs client (some (with_job j.job_id s)) h.client_job;
    in_progress = set_progress j.job_id (some (j, client)) h;
  },
  got j,
)

abbrev pub after_pop : Bytes → Handler → JobQueues × Popped → Result Error (Handler × Got)
after_pop client h (queues, popped j) = assign client j queues h (h.client_job client)
after_pop client h (queues, queue_empty) = err no_job
after_pop client h (queues, cancelled) = err stopped
after_pop client h (queues, waits c) = ok (record h { queues = queues }, waiting c)

-- `GetJob` of a client, whose id is empty if the context has none, in a round of `Pop`.
unfoldable pub get_job : Bytes → Bool → List Bytes → Bool → Handler → Result Error (Handler × Got)
get_job client is_done order wait h =
    let done = after_pop client h (pop_round is_done order wait h.queues) in
    if bytes_eq client [] then err no_client else done

-- `delete(h.clientJob[client], id)`
abbrev pub drop_job : Bytes → ℕ → Handler → Option (ℕ → Bool) → Bytes → Option (ℕ → Bool)
drop_job client id h none = h.client_job
drop_job client id h (some s) = set_jobs client (some (without_job id s)) h.client_job

-- The removal from the queues, and whether the job was there.
abbrev pub after_remove : Handler → Result QueuesError JobQueues → Result Error (Handler × Bool)
after_remove h (ok queues) = ok (record h { queues = queues }, true)
after_remove h (err job_queue_not_found) = ok (h, false)
after_remove h (err job_queue_empty) = ok (h, false)
after_remove h (err nil_queue) = err panics
after_remove h (err out_of_range) = err panics

abbrev pub delete_progress : ℕ → Handler × Bool → Option (Job × Bytes) → Result Error Handler
delete_progress id (h, found) none = if found then ok h else err no_job
delete_progress id (h, found) (some (j, client)) = ok (record h {
  client_job = drop_job client j.job_id h (h.client_job client);
  in_progress = set_progress id none h;
})

unfoldable pub delete_job : ℕ → Handler → Result Error Handler
delete_job id h =
    after_remove h (remove id h.queues) >>= λ r. delete_progress id r (h.in_progress id)

abbrev pub is_own : Option (ℕ → Bool) → ℕ → Bool
is_own none id = false
is_own (some s) id = s id

abbrev pub abort_progress : Bytes → ℕ → Handler → Option (Job × Bytes) → Result Error Handler
abort_progress client id h none = err no_job
abort_progress client id h (some (j, owner)) =
    if is_own (h.client_job client) id
    then ok (record h {
      queues = push j h.queues;
      client_job = drop_job client id h (h.client_job client);
      in_progress = set_progress id none h;
    })
    else err not_allowed

unfoldable pub abort_job : Bytes → ℕ → Handler → Result Error Handler
abort_job client id h =
    if bytes_eq client [] then err no_client else abort_progress client id h (h.in_progress id)

abbrev pub connected : Bytes → Handler → Option (ℕ → Bool) → Handler
connected client h (some s) = h
connected client h none = record h { client_job = set_jobs client (some (λ i. false)) h.client_job }

unfoldable pub on_client_connected : Bytes → Handler → Handler
on_client_connected client h = connected client h (h.client_job client)

-- One round of the loop over the client's jobs.
abbrev pub requeue : ℕ → Handler → Option (Job × Bytes) → Handler
requeue id h none = h
requeue id h (some (j, owner)) = record h {
  queues = push j h.queues;
  in_progress = set_progress id none h;
}

unfoldable pub requeue_all : List ℕ → Handler → Handler
requeue_all [] h = h
requeue_all (id ∷ ids) h = requeue_all ids (requeue id h (h.in_progress id))

abbrev pub disconnected : Bytes → List ℕ → Handler → Option (ℕ → Bool) → Handler
disconnected client ids h none = h
disconnected client ids h (some s) =
    let h' = requeue_all ids h in record h' { client_job = set_jobs client none h'.client_job }

-- `OnClientDisconnected`, with the client's jobs in the order in which the loop meets them, which Go leaves
-- open.
unfoldable pub on_client_disconnected : Bytes → List ℕ → Handler → Handler
on_client_disconnected client ids h = disconnected client ids h (h.client_job client)
