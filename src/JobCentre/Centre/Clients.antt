-- ===== src/JobCentre/Centre/Clients.antt =====
-- 9-job-centre/main.go: the connected clients and the counter of ids, under each operation.
use protohackers.Prelude.{
  ℕ, ◌+◌, ◌≤◌, ◌≡◌, ◌≢◌, ◌∙◌, inl, inr, refl, sym, ap, Option, none, some, Bool, false, Bool-cases,
  List, [], ◌∷◌, Result, ok, err, ◌>>=◌, Bytes, bytes_eq, bytes_eq_iff, bytes_eq_refl, subst, arith,
}
use protohackers.JobCentre.Queues.{
  Job, JobQueues, Popped, popped, queue_empty, cancelled, waits, remove, pop_round,
  Error as QueuesError, job_queue_empty, job_queue_not_found, nil_queue, out_of_range,
}
use protohackers.JobCentre.Handler.{
  Handler, Error, Got, is_own, set_jobs, with_job, without_job, assign, after_pop, put_job, get_job,
  drop_job, after_remove, delete_progress, delete_job, abort_progress, abort_job, connected,
  on_client_connected, requeue, requeue_all, disconnected, on_client_disconnected,
}
use protohackers.JobCentre.Handler.Safe.{IsSafe, own_at}
use protohackers.JobCentre.Centre.View.{view}

abbrev pub IsConnected : Handler → Bytes → Type 0
IsConnected h c = (s : ℕ → Bool) × (h.client_job c ≡ some s)

-- Who is connected stays so, and no id was given out.
abbrev pub IsKept : Handler → Handler → Type 0
IsKept h h' = (h'.job_id ≡ h.job_id) × ((c : Bytes) → IsConnected h c → IsConnected h' c)

set_jobs-connected :
    (client : Bytes) (s : ℕ → Bool) (m : Bytes → Option (ℕ → Bool)) (c : Bytes)
    → (t : ℕ → Bool) × (m c ≡ some t)
    → (t : ℕ → Bool) × (set_jobs client (some s) m c ≡ some t)
set_jobs-connected client s m c (t, e) = elim (Bool-cases (bytes_eq c client)) [
  | inl same ↦ (s, rw same refl)
  | inr other ↦ (t, rw other e)
]

drop_job-connected :
    (client : Bytes) (id : ℕ) (h : Handler) (o : Option (ℕ → Bool)) (c : Bytes)
    → IsConnected h c
    → (t : ℕ → Bool) × (drop_job client id h o c ≡ some t)
drop_job-connected client id h none c there = there
drop_job-connected client id h (some s) c there =
    set_jobs-connected client (without_job id s) h.client_job c there

abbrev GotKept : Handler → Result Error (Handler × Got) → Type 0
GotKept h (err e) = Unit
GotKept h (ok (h', g)) = IsKept h h'

assign-Kept :
    (client : Bytes) (j : Job) (q : JobQueues) (h : Handler) (o : Option (ℕ → Bool))
    → GotKept h (assign client j q h o)
assign-Kept client j q h none = tt
assign-Kept client j q h (some s) =
    (refl, set_jobs-connected client (with_job j.job_id s) h.client_job)

after_pop-Kept :
    (client : Bytes) (h : Handler) (p : JobQueues × Popped) → GotKept h (after_pop client h p)
after_pop-Kept client h (q, popped j) = assign-Kept client j q h (h.client_job client)
after_pop-Kept client h (q, queue_empty) = tt
after_pop-Kept client h (q, cancelled) = tt
after_pop-Kept client h (q, waits c) = (refl, λ c there. there)

pub get_job-Kept :
    (client : Bytes) (is_done : Bool) (order : List Bytes) (wait : Bool) (h h' : Handler) (g : Got)
    → get_job client is_done order wait h ≡ ok (h', g)
    → IsKept h h'
unfolding get_job
get_job-Kept client is_done order wait h h' g done = elim (Bool-cases (bytes_eq client [])) [
  | inl unnamed ↦ cc (rw unnamed at done)
  | inr named ↦
      let found : after_pop client h (pop_round is_done order wait h.queues) ≡ ok (h', g) =
        (rw named at done) in
      subst (GotKept h) found (after_pop-Kept client h (pop_round is_done order wait h.queues))
]

pub put_job_keeps :
    (queue job : Bytes) (priority : ℕ) (h : Handler)
    → let h' = (put_job queue job priority h).0 in
      (h'.job_id ≤ h.job_id + 1) × ((c : Bytes) → IsConnected h c → IsConnected h' c)
unfolding put_job
put_job_keeps queue job priority h = (omega arith, λ c there. there)

abbrev HandlerKept : Handler → Result Error Handler → Type 0
HandlerKept h (err e) = Unit
HandlerKept h (ok h') = IsKept h h'

delete_progress-Kept :
    (id : ℕ) (h : Handler) (r : Result QueuesError JobQueues) (o : Option (Job × Bytes))
    → HandlerKept h (after_remove h r >>= λ x. delete_progress id x o)
delete_progress-Kept id h (err nil_queue) o = tt
delete_progress-Kept id h (err out_of_range) o = tt
delete_progress-Kept id h (err job_queue_not_found) none = tt
delete_progress-Kept id h (err job_queue_empty) none = tt
delete_progress-Kept id h (ok q) none = (refl, λ c there. there)
delete_progress-Kept id h (err job_queue_not_found) (some (j, client)) =
    (refl, drop_job-connected client j.job_id h (h.client_job client))
delete_progress-Kept id h (err job_queue_empty) (some (j, client)) =
    (refl, drop_job-connected client j.job_id h (h.client_job client))
delete_progress-Kept id h (ok q) (some (j, client)) =
    (refl, drop_job-connected client j.job_id (record h { queues = q }) (h.client_job client))

pub delete_job-Kept : (id : ℕ) (h h' : Handler) → delete_job id h ≡ ok h' → IsKept h h'
unfolding delete_job
delete_job-Kept id h h' done =
    subst (HandlerKept h) done (delete_progress-Kept id h (remove id h.queues) (h.in_progress id))

abort_progress-Kept :
    (client : Bytes) (id : ℕ) (h : Handler) (o : Option (Job × Bytes))
    → HandlerKept h (abort_progress client id h o)
abort_progress-Kept client id h none = tt
abort_progress-Kept client id h (some (j, owner)) =
    elim (Bool-cases (is_own (h.client_job client) id)) [
      | inl own ↦ rw own (refl, drop_job-connected client id h (h.client_job client))
      | inr other ↦ rw other tt
    ]

pub abort_job-Kept :
    (client : Bytes) (id : ℕ) (h h' : Handler) → abort_job client id h ≡ ok h' → IsKept h h'
unfolding abort_job
abort_job-Kept client id h h' done = elim (Bool-cases (bytes_eq client [])) [
  | inl unnamed ↦ cc (rw unnamed at done)
  | inr named ↦
      subst (HandlerKept h) (rw named at done) (abort_progress-Kept client id h (h.in_progress id))
]

-- A client that connects holds nothing, and no job has moved.
connected_lem :
    (client : Bytes) (h : Handler) (o : Option (ℕ → Bool))
    → IsSafe h
    → h.client_job client ≡ o
    → IsSafe (connected client h o)
      × IsKept h (connected client h o)
      × IsConnected (connected client h o) client
      × (view (connected client h o) ≡ view h)
connected_lem client h (some s) v e = (v, (refl, λ c there. there), (s, e), refl)
connected_lem client h none v e = (
  record {
    queues = v.queues;
    held = λ i j c p.
        let (is_j, waits_not, own) = v.held i j c p in (is_j, waits_not, same_own c i ∙ own);
    owned = λ c i own. v.owned c i (sym (same_own c i) ∙ own);
    issued = v.issued;
  },
  (refl, set_jobs-connected client (λ i. false) h.client_job),
  ((λ i. false), rw (bytes_eq_refl client) refl),
  refl,
)
  where
    same_own :
        (c : Bytes) (i : ℕ)
        → is_own ((connected client h none).client_job c) i ≡ is_own (h.client_job c) i
    same_own c i = elim (Bool-cases (bytes_eq c client)) [
      | inl same ↦ rw same (sym (own_at h client none c i e same))
      | inr other ↦ rw other refl
    ]

pub on_client_connected_lem :
    (client : Bytes) (h : Handler)
    → IsSafe h
    → let h' = on_client_connected client h in
      IsSafe h' × IsKept h h' × IsConnected h' client × (view h' ≡ view h)
unfolding on_client_connected
on_client_connected_lem client h v = connected_lem client h (h.client_job client) v refl

-- Nothing changes for the other clients when one has left.
abbrev pub AreOthersKept : Bytes → Handler → Handler → Type 0
AreOthersKept client h h' =
    (h'.job_id ≡ h.job_id) × ((c : Bytes) → c ≢ client → h'.client_job c ≡ h.client_job c)

requeue_keeps :
    (id : ℕ) (h : Handler) (o : Option (Job × Bytes))
    → ((requeue id h o).job_id ≡ h.job_id) × ((requeue id h o).client_job ≡ h.client_job)
requeue_keeps id h none = (refl, refl)
requeue_keeps id h (some (j, owner)) = (refl, refl)

requeue_all_keeps :
    (ids : List ℕ) (h : Handler)
    → ((requeue_all ids h).job_id ≡ h.job_id) × ((requeue_all ids h).client_job ≡ h.client_job)
unfolding requeue_all
requeue_all_keeps [] h = (refl, refl)
requeue_all_keeps (id ∷ ids) h =
    let (a, b) = requeue_keeps id h (h.in_progress id) in
    let (c, d) = requeue_all_keeps ids (requeue id h (h.in_progress id)) in (c ∙ a, d ∙ b)

disconnected-AreOthersKept :
    (client : Bytes) (ids : List ℕ) (h : Handler) (o : Option (ℕ → Bool))
    → AreOthersKept client h (disconnected client ids h o)
disconnected-AreOthersKept client ids h none = (refl, λ c ne. refl)
disconnected-AreOthersKept client ids h (some s) =
    let (counter, clients) = requeue_all_keeps ids h in
    (
      counter,
      λ c ne. elim (Bool-cases (bytes_eq c client)) [
        | inl same ↦ absurd (ne ((bytes_eq_iff c client).0 same))
        | inr other ↦ rw other (ap (λ (m : Bytes → Option (ℕ → Bool)). m c) clients)
      ],
    )

pub on_client_disconnected-AreOthersKept :
    (client : Bytes) (ids : List ℕ) (h : Handler)
    → AreOthersKept client h (on_client_disconnected client ids h)
unfolding on_client_disconnected
on_client_disconnected-AreOthersKept client ids h =
    disconnected-AreOthersKept client ids h (h.client_job client)
