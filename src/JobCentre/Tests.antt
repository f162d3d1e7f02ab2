-- ===== src/JobCentre/Tests.antt =====
-- 9-job-centre: the results at a queue of two jobs.
use protohackers.Prelude.{
  ℕ, ◌+◌, ◌*◌, ◌≡◌, ◌⊎◌, refl, arith, ◌==◌, if◌then◌else◌, none, true, false, List, [], ◌∷◌, Bytes,
  codes,
}
use protohackers.JobCentre.Heap.{Heap, heap_push, heap_pop, up, down, swap, push_back, pop_back}
use protohackers.JobCentre.Queues.{
  Job, JobQueues, new_job_queues, push, pop_round, popped, waits, highest,
}
use protohackers.JobCentre.Queues.Push.{IsWell, pending, push_lem}
use protohackers.JobCentre.Queues.Pop.{IsPopped, IsEmptyHanded, pop_round_lem}
use protohackers.JobCentre.Heap.Queue.{IsQueue}

-- The jobs 1 and 2, with the priorities 3 and 5.
abbrev priority : ℕ → ℕ
priority p = 2 * p + 1

abbrev two_jobs : Heap
two_jobs = record {
  at = λ k. if k == 0 then 2 else 1;
  len = 2;
  index = λ p. if p == 1 then 1 else 0;
}

two_jobs-IsQueue : IsQueue priority two_jobs
two_jobs-IsQueue = record {
  indexed = record { places = λ k hk. ground arith };
  heap = record { ordered = λ k lk hk. ground arith };
}

abbrev small_job : Job
small_job = record { queue = codes "a"; job_id = 1; job = codes "{}"; priority = 3 }

abbrev big_job : Job
big_job = record { queue = codes "b"; job_id = 2; job = codes "{}"; priority = 7 }

new-IsWell : IsWell new_job_queues
new-IsWell = record { queues = λ n h e. cc; located = λ i n p e. cc }

abbrev one_waits : JobQueues
one_waits = push small_job new_job_queues

one_waits-none : pending one_waits 2 ≡ none
one_waits-none = (push_lem small_job new_job_queues new-IsWell refl).1 2

abbrev two_wait : JobQueues
two_wait = push big_job one_waits

two_wait-IsWell : IsWell two_wait
two_wait-IsWell =
    (push_lem big_job one_waits (push_lem small_job new_job_queues new-IsWell refl).0
      one_waits-none).0

abbrev both : List Bytes
both = codes "b" ∷ codes "a" ∷ []

pop_round_lem_example :
    ((j : Job) × (jq' : JobQueues) × (pop_round false both true two_wait ≡ (jq', popped j))
      × IsPopped both two_wait j jq')
    ⊎ ((jq' : JobQueues) × (pop_round false both true two_wait ≡ (jq', waits two_wait.made))
        × IsEmptyHanded both two_wait jq')
pop_round_lem_example = pop_round_lem both true two_wait two_wait-IsWell

-- The job of the higher priority is the one that is returned.
two_wait-popped : (pop_round false both true two_wait).1 ≡ popped big_job
unfolding pop_round highest push heap_push heap_pop up down swap push_back pop_back
two_wait-popped = refl
