-- ===== src/JobCentre/Centre/History.antt =====
-- 9-job-centre: the jobs of a run, and the requests that put them.
use protohackers.Prelude.{
  subst, ok, codes, ◌++◌, length, ℕ, ◌^◌, ◌<◌, ◌≡◌, ◌∙◌, ◌⊎◌, inl, inr, refl, sym, ap, Option, none,
  some, Bool-cases, List, [], ◌∷◌, Bytes, bytes_eq, ==_iff, ◌==◌,
}
use protohackers.JobCentre.Queues.{Job}
use protohackers.JobCentre.Queues.Push.{some-injective}
use protohackers.JobCentre.Handler.{Handler}
use protohackers.JobCentre.Requests.Dispatch.{Json, put_response}
use protohackers.JobCentre.Centre.Exchanges.{
  Exchange, answer, Tells, of_departure, of_put, of_get, of_empty_get, of_wait, of_late_get,
  of_later_wait, of_delete, of_miss, of_abort, of_no_abort, of_no_job, AreTold, nothing, silent,
  spoken,
}
use protohackers.JobCentre.Centre.{
  Place, nowhere, in_queue, with_client, Places, Event, put, Moves, leave, Step, puts, gives,
  gives_none, deletes, misses, aborts, refuses, leaves, Run, start, extend,
}
use protohackers.JobCentre.Centre.View.{view}
use protohackers.JobCentre.Centre.Runs.{Reach, Reach-Follows}

abbrev pub HasEvent : Event → List Event → Type 0
HasEvent e [] = ⊥
HasEvent e (f ∷ es) = (e ≡ f) ⊎ HasEvent e es

abbrev pub job_in : Place → Option Job
job_in nowhere = none
job_in (in_queue j) = some j
job_in (with_client j c) = some j

-- The job of an id has that id, and was put.
abbrev pub WerePut : List Event → Places → Type 0
WerePut es m = (i : ℕ) (j : Job) → job_in (m i) ≡ some j → (j.job_id ≡ i) × HasEvent (put j) es

moved_job :
    (id : ℕ) (p : Place) (m m' : Places) (i : ℕ) (j : Job)
    → Moves id p m m'
    → job_in (m' i) ≡ some j
    → ((id ≡ i) × (job_in p ≡ some j)) ⊎ (job_in (m i) ≡ some j)
moved_job id p m m' i j moves e = elim (Bool-cases (i == id)) [
  | inl same ↦ inl (sym ((==_iff i id).0 same), ap job_in (rw same at (sym (moves i))) ∙ e)
  | inr other ↦ inr (ap job_in (rw other at (sym (moves i))) ∙ e)
]

left_job : (client : Bytes) (p : Place) → job_in (leave client p) ≡ job_in p
left_job client nowhere = refl
left_job client (in_queue j) = refl
left_job client (with_client j c) = elim (Bool-cases (bytes_eq c client)) [
  | inl same ↦ rw same refl
  | inr other ↦ rw other refl
]

module _ (es : List Event) (m m' : Places) (were : WerePut es m) where
  older :
      (e : Event) (i : ℕ) (j : Job)
      → job_in (m i) ≡ some j
      → (j.job_id ≡ i) × HasEvent (put j) (e ∷ es)
  older e i j there = let (is_i, was) = were i j there in (is_i, inr was)

  same_job :
      (e : Event) (id : ℕ) (p : Place)
      → Moves id p m m'
      → ((j : Job) → job_in p ≡ some j → job_in (m id) ≡ some j)
      → WerePut (e ∷ es) m'
  same_job e id p moves same i j there = elim (moved_job id p m m' i j moves there) [
    | inl (is_id, of_p) ↦ older e i j (ap (λ i. job_in (m i)) (sym is_id) ∙ same j of_p)
    | inr unmoved ↦ older e i j unmoved
  ]

  Step-WerePut : (e : Event) → Step m m' e → WerePut (e ∷ es) m'
  Step-WerePut _ (puts {j = k} fresh moves) i j there =
      elim (moved_job k.job_id (in_queue k) m m' i j moves there) [
        | inl (is_id, of_p) ↦
            let same : k ≡ j = (some-injective of_p) in
            (ap (λ (x : Job). x.job_id) (sym same) ∙ is_id, inl (ap put (sym same)))
        | inr unmoved ↦ older _ i j unmoved
      ]
  Step-WerePut _ (gives {j = k} waits among best moves) i j there =
      same_job _ k.job_id _ moves (λ j of_p. ap job_in waits ∙ of_p) i j there
  Step-WerePut _ (gives_none best stays) i j there = older _ i j (ap job_in (sym (stays i)) ∙ there)
  Step-WerePut _ (deletes {id} found moves) i j there =
      same_job _ id nowhere moves (λ j of_p. cc) i j there
  Step-WerePut _ (misses absent stays) i j there = older _ i j (ap job_in (sym (stays i)) ∙ there)
  Step-WerePut _ (aborts {id = id} held moves) i j there =
      same_job _ id _ moves (λ j of_p. ap job_in held ∙ of_p) i j there
  Step-WerePut _ (refuses not_held stays) i j there =
      older _ i j (ap job_in (sym (stays i)) ∙ there)
  Step-WerePut _ (leaves {client} left_) i j there =
      older _ i j (sym (left_job client (m i)) ∙ ap job_in (sym (left_ i)) ∙ there)

Run-WerePut : {es : List Event} {m : Places} → Run es m → WerePut es m
Run-WerePut (start empty) i j there = cc (ap job_in (sym (empty i)) ∙ there)
Run-WerePut (extend {es} {e} {m} {m'} run step) i j there =
    Step-WerePut es m m' (Run-WerePut run) e step i j there

-- The request and the answer that put a job.
abbrev pub IsPut : Json → Job → Exchange → Type 0
IsPut json j (answer client l w order) =
    (json.decode_request l ≡ ok (codes "put"))
    × (json.decode_put l ≡ ok (j.queue, j.job, j.priority))
    × (w ≡ json.encode (put_response j.job_id) ++ 10 ∷ [])
IsPut json j _ = ⊥

abbrev pub WasPut : Json → Job → List Exchange → Type 0
WasPut json j [] = ⊥
WasPut json j (x ∷ xs) = IsPut json j x ⊎ WasPut json j xs

Tells-IsPut :
    (json : Json) (x : Exchange) (e : Event) (j : Job)
    → Tells json x (some e)
    → put j ≡ e
    → IsPut json j x
Tells-IsPut json _ _ j (of_put {l = l} {j = k} is_put decoded) same =
    let same' : k ≡ j = cc in
    (
      is_put,
      subst (λ (i : Job). json.decode_put l ≡ ok (i.queue, i.job, i.priority)) same' decoded,
      ap (λ (i : Job). json.encode (put_response i.job_id) ++ 10 ∷ []) same',
    )
Tells-IsPut json _ _ j of_departure same = cc same
Tells-IsPut json _ _ j (of_get _ _) same = cc same
Tells-IsPut json _ _ j (of_empty_get _ _) same = cc same
Tells-IsPut json _ _ j (of_wait _ _) same = cc same
Tells-IsPut json _ _ j of_late_get same = cc same
Tells-IsPut json _ _ j of_later_wait same = cc same
Tells-IsPut json _ _ j (of_delete _ _) same = cc same
Tells-IsPut json _ _ j (of_miss _ _) same = cc same
Tells-IsPut json _ _ j (of_abort _ _) same = cc same
Tells-IsPut json _ _ j (of_no_abort _ _) same = cc same
Tells-IsPut json _ _ j (of_no_job _ _) same = cc same

AreTold-WasPut :
    (json : Json) {xs : List Exchange} {es : List Event} (j : Job)
    → AreTold json xs es
    → HasEvent (put j) es
    → WasPut json j xs
AreTold-WasPut json j nothing has = absurd has
AreTold-WasPut json j (silent told tells) has = inr (AreTold-WasPut json j told has)
AreTold-WasPut json j (spoken {x} {xs} {e} {es} told tells) (inl same) =
    inl (Tells-IsPut json x e j tells same)
AreTold-WasPut json j (spoken told tells) (inr has) = inr (AreTold-WasPut json j told has)

-- In every handler that the server reaches, as long as the counter of ids cannot overflow: a job that waits
-- or is in progress stands under its own id, and some client has sent a put request with its queue, its
-- value and its priority, which was answered with its id.
pub jobs-WasPut :
    (json : Json) {xs : List Exchange} {h : Handler} (i : ℕ) (j : Job)
    → length xs < 2 ^ 32
    → Reach json xs h
    → job_in (view h i) ≡ some j
    → (j.job_id ≡ i) × WasPut json j xs
jobs-WasPut json i j lt r there =
    let (es, told, run) = Reach-Follows json lt r in
    let (is_i, has) = Run-WerePut run i j there in (is_i, AreTold-WasPut json j told has)
