-- ===== src/JobCentre/Centre/Tests.antt =====
-- 9-job-centre: a client that connects and puts a job.
use protohackers.Prelude.{
  ℕ, ◌≡◌, ◌≢◌, refl, some, err, List, [], ◌∷◌, Bytes, codes, arith, false, true,
}
use protohackers.JobCentre.Queues.{Job, push}
use protohackers.JobCentre.Handler.{
  Handler, init_queue_handler, on_client_connected, put_job, get_job, panics,
}
use protohackers.JobCentre.Requests.Dispatch.{crashed, dispatch}
use protohackers.JobCentre.Requests.Sessions.{serve_line}
use protohackers.JobCentre.Requests.Coding.{short_json}
use protohackers.JobCentre.Centre.Exchanges.{Exchange, connected, answer}
use protohackers.JobCentre.Centre.View.{view}
use protohackers.JobCentre.Centre.Runs.{
  Reach, begin, later, connects, answers, Follows, Reach-Follows, never_crashes,
}
use protohackers.JobCentre.Centre.History.{job_in, WasPut, jobs-WasPut}

abbrev alice : Bytes
alice = codes "alice"

abbrev alone : Handler
alone = on_client_connected alice init_queue_handler

abbrev with_job : Handler
with_job = (put_job (codes "q") (codes "ab") 7 alone).0

abbrev first_put : List Exchange
first_put = answer alice (codes "p7ab") (codes "1\n") (λ q. q) ∷ connected alice ∷ []

one_put : Reach short_json first_put with_job
unfolding dispatch put_job on_client_connected
one_put =
    later (later begin (connects alice (λ e. cc))) (answers alice (codes "p7ab") (λ q. q) refl refl)

Reach-Follows_example : Follows short_json first_put with_job
Reach-Follows_example = Reach-Follows short_json (omega arith) one_put

abbrev the_job : Job
the_job = record { queue = codes "q"; job_id = 1; job = codes "ab"; priority = 7 }

job_waits : job_in (view with_job 1) ≡ some the_job
unfolding put_job push on_client_connected
job_waits = refl

jobs-WasPut_example : (◌≡◌ {A = ℕ} 1 1) × WasPut short_json the_job first_put
jobs-WasPut_example = jobs-WasPut short_json 1 the_job (omega arith) one_put job_waits

never_crashes_example :
    (serve_line short_json alice (λ q. q) (codes "d1") with_job ≢ crashed [])
    × ((queues : List Bytes) → get_job alice false queues true with_job ≢ err panics)
never_crashes_example =
    never_crashes short_json alice (codes "d1") [] (λ q. q) (omega arith) one_put refl
