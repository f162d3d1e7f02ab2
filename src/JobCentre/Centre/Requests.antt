-- ===== src/JobCentre/Centre/Requests.antt =====
-- 9-job-centre/proto/server.go: each request of a client is a step of the job centre.
use protohackers.Prelude.{
  ℕ, ◌+◌, ◌^◌, ◌≤◌, ◌<◌, ◌≡◌, ◌≢◌, inl, inr, refl, Bool, false, Bool-cases, List, [], ◌∷◌, Result,
  ok, err, ◌>>=◌, Bytes, codes, bytes_eq, bytes_eq_iff, arith, ap, sym, ◌∙◌, Option, none, some,
}
use protohackers.JobCentre.Handler.{Handler, got, waiting}
use protohackers.JobCentre.Handler.Safe.{IsSafe}
use protohackers.JobCentre.Requests.Dispatch.{
  Json, Fault, bad_json, Handled, or_else, handle_put, handle_get, handle_delete, handle_abort,
  dispatch, Outcome, written, blocked, crashed, respond,
}
use protohackers.JobCentre.Requests.Sessions.{serve_line}
use protohackers.JobCentre.Centre.{Event, Places, Step}
use protohackers.JobCentre.Centre.Exchanges.{
  answer, waits, error_line, IsNoRequest, empty, no_json, no_put, no_get, no_delete, no_abort,
  no_type, Tells, of_no_request, of_put, of_get, of_empty_get, of_wait, of_delete, of_miss,
  of_abort, of_no_abort, of_no_job,
}
use protohackers.JobCentre.Centre.View.{
  view, put_job_refines, get_job_refines, delete_job_refines, abort_job_refines,
}
use protohackers.JobCentre.Centre.Clients.{
  IsConnected, IsKept, put_job_keeps, get_job-Kept, delete_job-Kept, abort_job-Kept,
}

-- The handler is safe, at most one id was given out, and who is connected is still so.
abbrev pub GoesOn : Handler → Handler → Type 0
GoesOn h h' =
    IsSafe h' × (h'.job_id ≤ h.job_id + 1) × ((c : Bytes) → IsConnected h c → IsConnected h' c)

pub Kept-GoesOn : (h h' : Handler) → IsSafe h' → IsKept h h' → GoesOn h h'
Kept-GoesOn h h' safe (counter, clients) = (safe, omega arith, clients)

abbrev pub StepsOn : Places → Places → Option Event → Type 0
StepsOn m m' none = m' ≡ m
StepsOn m m' (some e) = Step m m' e

-- The answer to a line tells of the step that is made, or of none; it is no panic.
abbrev pub IsFollowed :
    Json → Bytes → Bytes → (List Bytes → List Bytes) → Handler → Outcome → Type 0
IsFollowed json client l order h (written w h') =
    GoesOn h h'
    × (e : Option Event) × Tells json (answer client l w order) e
    × StepsOn (view h) (view h') e
IsFollowed json client l order h (blocked w c h') =
    GoesOn h h'
    × (e : Event) × Tells json (waits client l order) (some e)
    × Step (view h) (view h') e
IsFollowed json client l order h (crashed w) = ⊥

module _ (json : Json) (client : Bytes) (order : List Bytes → List Bytes) (h : Handler)
    (v : IsSafe h) (named : client ≢ []) (there : IsConnected h client)
    (room : h.job_id + 1 < 2 ^ 32) (l : Bytes) where
  abbrev IsAnswered : Result Fault Handled → Type 0
  IsAnswered r = IsFollowed json client l order h (respond json client order h r)

  unchanged : GoesOn h h
  unchanged = (v, omega arith, λ c there. there)

  bind-IsAnswered :
      {A : Type 0} (r : Result Bytes A) (next : A → Result Fault Handled)
      → ((m : Bytes) → r ≡ err m → IsNoRequest json l (error_line json m))
      → ((a : A) → r ≡ ok a → IsAnswered (next a))
      → IsAnswered (or_else bad_json r >>= next)
  bind-IsAnswered (err m) next bad good = (unchanged, none, of_no_request (bad m refl), refl)
  bind-IsAnswered (ok a) next bad good = good a refl

  handle_put-IsAnswered :
      (r : Bytes × Bytes × ℕ)
      → json.decode_request l ≡ ok (codes "put")
      → json.decode_put l ≡ ok r
      → IsAnswered (handle_put h r)
  handle_put-IsAnswered (queue, job, priority) is_put e =
      let (safe, step) = put_job_refines h v queue job priority room in
      let (counter, clients) = put_job_keeps queue job priority h in
      ((safe, counter, clients), _, of_put is_put e, step)

  handle_get-IsAnswered :
      (r : List Bytes × Bool)
      → json.decode_request l ≡ ok (codes "get")
      → json.decode_get l ≡ ok r
      → IsAnswered (handle_get client order h r)
  handle_get-IsAnswered (queues, wait) is_get e =
      elim (get_job_refines h v client (order queues) wait there.0 named there.1) [
        | inl (j, h', done, safe, step) ↦ rw done (
          Kept-GoesOn h h' safe (get_job-Kept client false (order queues) wait h h' (got j) done),
          _,
          of_get is_get e,
          step,
        )
        | inr (inl (is_wait, h', done, safe, _, _, step)) ↦ rw done (
          Kept-GoesOn h h' safe
              (get_job-Kept client false (order queues) wait h h' (waiting h.queues.made) done),
          _,
          of_wait is_get (e ∙ ap (λ (b : Bool). ok (queues, b)) is_wait),
          step,
        )
        | inr (inr (no_wait, done, step)) ↦ rw done (
          unchanged,
          _,
          of_empty_get is_get (e ∙ ap (λ (b : Bool). ok (queues, b)) no_wait),
          step,
        )
      ]

  handle_delete-IsAnswered :
      (id : ℕ)
      → json.decode_request l ≡ ok (codes "delete")
      → json.decode_id l ≡ ok id
      → IsAnswered (handle_delete h id)
  handle_delete-IsAnswered id is_delete e = elim (delete_job_refines h v id) [
    | inl (h', done, safe, step) ↦
        rw done
          (Kept-GoesOn h h' safe (delete_job-Kept id h h' done), _, of_delete is_delete e, step)
    | inr (done, step) ↦ rw done (unchanged, _, of_miss is_delete e, step)
  ]

  handle_abort-IsAnswered :
      (id : ℕ)
      → json.decode_request l ≡ ok (codes "abort")
      → json.decode_id l ≡ ok id
      → IsAnswered (handle_abort client h id)
  handle_abort-IsAnswered id is_abort e = elim (abort_job_refines h v client id named) [
    | inl (h', done, safe, step) ↦
        rw done
          (Kept-GoesOn h h' safe (abort_job-Kept client id h h' done), _, of_abort is_abort e, step)
    | inr (inl done, step) ↦ rw done (unchanged, _, of_no_job is_abort e, step)
    | inr (inr done, step) ↦ rw done (unchanged, _, of_no_abort is_abort e, step)
  ]

  -- Whatever the text of a request, and whatever the decoder takes it for.
  dispatch-IsAnswered :
      (type : Bytes)
      → json.decode_request l ≡ ok type
      → IsAnswered (dispatch json client order h l type)
  unfolding dispatch
  dispatch-IsAnswered type e = elim (Bool-cases (bytes_eq type (codes "put"))) [
    | inl is_put ↦
        let e' = e ∙ ap ok ((bytes_eq_iff type (codes "put")).0 is_put) in
        rw is_put
          (bind-IsAnswered (json.decode_put l) _ (λ m. no_put e') (λ r. handle_put-IsAnswered r e'))
    | inr e1 ↦ elim (Bool-cases (bytes_eq type (codes "get"))) [
      | inl is_get ↦
          let e' = e ∙ ap ok ((bytes_eq_iff type (codes "get")).0 is_get) in
          rw (e1, is_get)
            (bind-IsAnswered (json.decode_get l) _ (λ m. no_get e')
              (λ r. handle_get-IsAnswered r e'))
      | inr e2 ↦ elim (Bool-cases (bytes_eq type (codes "delete"))) [
        | inl is_delete ↦
            let e' = e ∙ ap ok ((bytes_eq_iff type (codes "delete")).0 is_delete) in
            rw (e1, e2, is_delete)
              (bind-IsAnswered (json.decode_id l) _ (λ m. no_delete e')
                (λ id. handle_delete-IsAnswered id e'))
        | inr e3 ↦ elim (Bool-cases (bytes_eq type (codes "abort"))) [
          | inl is_abort ↦
              let e' = e ∙ ap ok ((bytes_eq_iff type (codes "abort")).0 is_abort) in
              rw (e1, e2, e3, is_abort)
                (bind-IsAnswered (json.decode_id l) _ (λ m. no_abort e')
                  (λ id. handle_abort-IsAnswered id e'))
          | inr e4 ↦
              let unknown = no_type e (no_text e1) (no_text e2) (no_text e3) (no_text e4) in
              rw (e1, e2, e3, e4) (unchanged, none, of_no_request unknown, refl)
        ]
      ]
    ]
  ]
    where
      no_text : {t u : Bytes} → bytes_eq t u ≡ false → t ≢ u
      no_text {t} {u} e same = cc (sym e ∙ (bytes_eq_iff t u).1 same)

-- Whatever a connected client sends in a line, the server does not panic, and goes on with a safe
-- handler; it takes the step of the job centre that the answer tells of, or none.
pub serve_line-IsFollowed :
    (json : Json) (client : Bytes) (order : List Bytes → List Bytes) (h : Handler)
    → IsSafe h
    → client ≢ []
    → IsConnected h client
    → h.job_id + 1 < 2 ^ 32
    → (l : Bytes) → IsFollowed json client l order h (serve_line json client order l h)
serve_line-IsFollowed json client order h v named there room [] =
    ((v, omega arith, λ c there. there), none, of_no_request empty, refl)
serve_line-IsFollowed json client order h v named there room (c ∷ cs) =
    bind-IsAnswered json client order h v named there room (c ∷ cs) (json.decode_request (c ∷ cs)) _
      (λ m. no_json) (dispatch-IsAnswered json client order h v named there room (c ∷ cs))
