-- ===== src/JobCentre/Centre/Exchanges.antt =====
-- 9-job-centre/proto/server.go as its clients see it: what is exchanged at the connections, and which events
-- of the job centre a request and its answer tell of.
use protohackers.Prelude.{
  ℕ, ◌≡◌, ◌≢◌, Option, none, some, Bool, true, false, List, [], ◌∷◌, ◌++◌, ok, err, Bytes, codes,
  bytes_eq, ◌||◌, if◌then◌else◌,
}
use protohackers.Prelude.Int.{pos}
use protohackers.Prelude.Decimal.{format_int}
use protohackers.JobCentre.Queues.{Job}
use protohackers.JobCentre.Handler.{Got, got, waiting}
use protohackers.JobCentre.Requests.Dispatch.{
  Json, Response, succeeded, put_response, get_response, failed,
}
use protohackers.JobCentre.Centre.{
  Event, put, given, none_given, deleted, not_found, aborted, not_aborted, left,
}

-- A line of a client with what is written to it, a `get` that begins to wait, a round of one that waits;
-- `order` is that in which Go meets the queues of the `get`.
pub data Exchange : Type 0 where
  connected gone : (client : Bytes) → Exchange
  answer : (client line written : Bytes) (order : List Bytes → List Bytes) → Exchange
  waits : (client line : Bytes) (order : List Bytes → List Bytes) → Exchange
  woken : (client : Bytes) → List Bytes → Got → Exchange

-- The last of a client's connections and departures was a connection. The exchanges stand last first.
abbrev pub is_online : Bytes → List Exchange → Bool
is_online c [] = false
is_online c (connected d ∷ xs) = bytes_eq c d || is_online c xs
is_online c (gone d ∷ xs) = let before = is_online c xs in if bytes_eq c d then false else before
is_online c (answer d l w order ∷ xs) = is_online c xs
is_online c (waits d l order ∷ xs) = is_online c xs
is_online c (woken d queues g ∷ xs) = is_online c xs

abbrev pub not_allowed_text : ℕ → Bytes
not_allowed_text id =
    codes "unknown error" ++ 10 ∷ codes "you are not allowed to abort job " ++ format_int (pos id)

module _ (json : Json) where
  abbrev pub response_line : Response → Bytes
  response_line r = json.encode r ++ 10 ∷ []

  abbrev pub error_line : Bytes → Bytes
  error_line message = response_line (failed (codes "error") message)

  abbrev pub no_job_line : Bytes
  no_job_line = response_line (failed (codes "no-job") [])

  -- A line that is no request, and its answer.
  pub data IsNoRequest : Bytes → Bytes → Type 0 where
    empty : IsNoRequest [] (10 ∷ [])
    no_json : {l m : Bytes} → json.decode_request l ≡ err m → IsNoRequest l (error_line m)
    no_put :
        {l m : Bytes}
        → json.decode_request l ≡ ok (codes "put")
        → json.decode_put l ≡ err m
        → IsNoRequest l (error_line m)
    no_get :
        {l m : Bytes}
        → json.decode_request l ≡ ok (codes "get")
        → json.decode_get l ≡ err m
        → IsNoRequest l (error_line m)
    no_delete :
        {l m : Bytes}
        → json.decode_request l ≡ ok (codes "delete")
        → json.decode_id l ≡ err m
        → IsNoRequest l (error_line m)
    no_abort :
        {l m : Bytes}
        → json.decode_request l ≡ ok (codes "abort")
        → json.decode_id l ≡ err m
        → IsNoRequest l (error_line m)
    no_type :
        {l type : Bytes}
        → json.decode_request l ≡ ok type
        → type ≢ codes "put"
        → type ≢ codes "get"
        → type ≢ codes "delete"
        → type ≢ codes "abort"
        → IsNoRequest l (error_line (codes "unrecognised request type"))

  pub data Tells : Exchange → Option Event → Type 0 where
    of_connection : {c : Bytes} → Tells (connected c) none
    of_departure : {c : Bytes} → Tells (gone c) (some (left c))
    of_no_request :
        {c l w : Bytes} {order : List Bytes → List Bytes}
        → IsNoRequest l w
        → Tells (answer c l w order) none
    of_put :
        {c l : Bytes} {order : List Bytes → List Bytes} {j : Job}
        → json.decode_request l ≡ ok (codes "put")
        → json.decode_put l ≡ ok (j.queue, j.job, j.priority)
        → Tells (answer c l (response_line (put_response j.job_id)) order) (some (put j))
    of_get :
        {c l : Bytes} {order : List Bytes → List Bytes} {queues : List Bytes} {wait : Bool}
        {j : Job}
        → json.decode_request l ≡ ok (codes "get")
        → json.decode_get l ≡ ok (queues, wait)
        → Tells
            (answer c l (response_line (get_response j)) order)
            (some (given c (order queues) j))
    of_empty_get :
        {c l : Bytes} {order : List Bytes → List Bytes} {queues : List Bytes}
        → json.decode_request l ≡ ok (codes "get")
        → json.decode_get l ≡ ok (queues, false)
        → Tells (answer c l no_job_line order) (some (none_given (order queues)))
    of_wait :
        {c l : Bytes} {order : List Bytes → List Bytes} {queues : List Bytes}
        → json.decode_request l ≡ ok (codes "get")
        → json.decode_get l ≡ ok (queues, true)
        → Tells (waits c l order) (some (none_given (order queues)))
    of_late_get :
        {c : Bytes} {queues : List Bytes} {j : Job}
        → Tells (woken c queues (got j)) (some (given c queues j))
    of_later_wait :
        {c : Bytes} {queues : List Bytes} {k : ℕ}
        → Tells (woken c queues (waiting k)) (some (none_given queues))
    of_delete :
        {c l : Bytes} {order : List Bytes → List Bytes} {id : ℕ}
        → json.decode_request l ≡ ok (codes "delete")
        → json.decode_id l ≡ ok id
        → Tells (answer c l (response_line succeeded) order) (some (deleted id))
    of_miss :
        {c l : Bytes} {order : List Bytes → List Bytes} {id : ℕ}
        → json.decode_request l ≡ ok (codes "delete")
        → json.decode_id l ≡ ok id
        → Tells (answer c l no_job_line order) (some (not_found id))
    of_abort :
        {c l : Bytes} {order : List Bytes → List Bytes} {id : ℕ}
        → json.decode_request l ≡ ok (codes "abort")
        → json.decode_id l ≡ ok id
        → Tells (answer c l (response_line succeeded) order) (some (aborted c id))
    of_no_abort :
        {c l : Bytes} {order : List Bytes → List Bytes} {id : ℕ}
        → json.decode_request l ≡ ok (codes "abort")
        → json.decode_id l ≡ ok id
        → Tells (answer c l (error_line (not_allowed_text id)) order) (some (not_aborted c id))
    of_no_job :
        {c l : Bytes} {order : List Bytes → List Bytes} {id : ℕ}
        → json.decode_request l ≡ ok (codes "abort")
        → json.decode_id l ≡ ok id
        → Tells (answer c l no_job_line order) (some (not_aborted c id))

  -- The events that the exchanges tell of, one after the other.
  pub data AreTold : List Exchange → List Event → Type 0 where
    nothing : AreTold [] []
    silent :
        {x : Exchange} {xs : List Exchange} {es : List Event}
        → AreTold xs es
        → Tells x none
        → AreTold (x ∷ xs) es
    spoken :
        {x : Exchange} {xs : List Exchange} {e : Event} {es : List Event}
        → AreTold xs es
        → Tells x (some e)
        → AreTold (x ∷ xs) (e ∷ es)
