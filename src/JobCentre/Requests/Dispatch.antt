-- ===== src/JobCentre/Requests/Dispatch.antt =====
-- 9-job-centre/proto/server.go: the routine of `looper` that answers the requests of a connection. The
-- coding of JSON is a parameter; a write to the connection succeeds.
use protohackers.Prelude.{
  ℕ, ◌+◌, Bool, false, List, [], ◌∷◌, ◌++◌, Result, ok, err, ◌>>=◌, Bytes, codes, bytes_eq, ◌==◌,
  if◌then◌else◌, length,
}
use protohackers.Prelude.Int.{pos}
use protohackers.Prelude.Decimal.{format_int}
use protohackers.JobCentre.Queues.{Job}
use protohackers.JobCentre.Handler.{
  Handler, Error, no_client, no_job, not_allowed, stopped, panics, Got, got, waiting, put_job,
  get_job, delete_job, abort_job,
}
use protohackers.JobCentre.Requests.{
  RequestBuffer, BufferError, closed_buffer, out_of_range, unimplemented, unknown_whence, eof,
  index_out_of_range, request_len, read, seek, seek_start, read_requests,
}

-- The responses, with a status other than "ok" in `failed`.
pub data Response : Type 0 where
  succeeded : Response
  put_response : ℕ → Response
  get_response : Job → Response
  failed : (status message : Bytes) → Response

-- `encoding/json` at the types of the requests and responses: a text that cannot be decoded gives the
-- message of the error. `encode` ends in a newline.
pub record Json : Type 0 where
  pub decode_request : Bytes → Result Bytes Bytes
  pub decode_put : Bytes → Result Bytes (Bytes × Bytes × ℕ)
  pub decode_get : Bytes → Result Bytes (List Bytes × Bool)
  pub decode_id : Bytes → Result Bytes ℕ
  pub encode : Response → Bytes

-- What `err` may be.
pub data Fault : Type 0 where
  bad_json : Bytes → Fault
  bad_buffer : BufferError → Fault
  unrecognised : Fault
  refused : ℕ → Error → Fault  -- with the id of the request

abbrev pub or_else {ℓ} : {E F : Type 0} {A : Type ℓ} → (E → F) → Result E A → Result F A
or_else f (err e) = err (f e)
or_else f (ok a) = ok a

-- A request that was handled, or a `get` that waits.
pub data Handled : Type 0 where
  answered : Response → Handler → Handled
  awaits_job : ℕ → Handler → Handled

abbrev pub handle_put : Handler → Bytes × Bytes × ℕ → Result Fault Handled
handle_put h (queue, job, priority) =
    let (h', id) = put_job queue job priority h in ok (answered (put_response id) h')

abbrev pub got_job : Handler × Got → Result Fault Handled
got_job (h, got j) = ok (answered (get_response j) h)
got_job (h, waiting c) = ok (awaits_job c h)

-- `order` is the order in which a map is met that has the queues as its keys, which Go leaves open.
abbrev pub handle_get :
    Bytes → (List Bytes → List Bytes) → Handler → List Bytes × Bool → Result Fault Handled
handle_get client order h (queues, wait) =
    or_else (refused 0) (get_job client false (order queues) wait h) >>= got_job

abbrev pub handle_delete : Handler → ℕ → Result Fault Handled
handle_delete h id = or_else (refused id) (delete_job id h) >>= λ h'. ok (answered succeeded h')

abbrev pub handle_abort : Bytes → Handler → ℕ → Result Fault Handled
handle_abort client h id =
    or_else (refused id) (abort_job client id h) >>= λ h'. ok (answered succeeded h')

-- `err.Error()`; a panic has none.
abbrev pub error_message : ℕ → Error → Bytes
error_message id no_client = codes "client ID not found in context"
error_message id no_job = codes "error no job"
error_message id not_allowed =
    codes "unknown error" ++ 10 ∷ codes "you are not allowed to abort job " ++ format_int (pos id)
error_message id stopped = codes "context canceled"
error_message id panics = []

abbrev pub buffer_message : BufferError → Bytes
buffer_message closed_buffer = codes "closed request buffer"
buffer_message out_of_range = codes "out of range"
buffer_message unimplemented = codes "unimplemented yet"
buffer_message unknown_whence = codes "unknown whence"
buffer_message eof = codes "EOF"
buffer_message index_out_of_range = []

abbrev pub error_response : Fault → Response
error_response (bad_json message) = failed (codes "error") message
error_response (bad_buffer e) = failed (codes "error") (buffer_message e)
error_response unrecognised = failed (codes "error") (codes "unrecognised request type")
error_response (refused id no_job) = failed (codes "no-job") []
error_response (refused id e) = failed (codes "error") (error_message id e)

-- What was written to the connection, and how it goes on: with the handler as it is now, in a `get` that
-- waits at a channel, or with a panic, which ends the program.
pub data Outcome : Type 0 where
  written : Bytes → Handler → Outcome
  blocked : Bytes → ℕ → Handler → Outcome
  crashed : Bytes → Outcome

abbrev pub write_before : Bytes → Outcome → Outcome
write_before w (written w' h) = written (w ++ w') h
write_before w (blocked w' c h) = blocked (w ++ w') c h
write_before w (crashed w') = crashed (w ++ w')

abbrev pub and_then : Outcome → (Handler → Outcome) → Outcome
and_then (written w h) next = write_before w (next h)
and_then (blocked w c h) next = blocked w c h
and_then (crashed w) next = crashed w

module _ (json : Json) (client : Bytes) (order : List Bytes → List Bytes) where
  -- The switch on the type of the request.
  unfoldable pub dispatch : Handler → Bytes → Bytes → Result Fault Handled
  dispatch h text type =
      if bytes_eq type (codes "put")
      then or_else bad_json (json.decode_put text) >>= handle_put h
      else if bytes_eq type (codes "get")
      then or_else bad_json (json.decode_get text) >>= handle_get client order h
      else if bytes_eq type (codes "delete")
      then or_else bad_json (json.decode_id text) >>= handle_delete h
      else if bytes_eq type (codes "abort")
      then or_else bad_json (json.decode_id text) >>= handle_abort client h
      else err unrecognised

  -- A request that holds something: it is decoded twice, from the start. The decoder reads as far as it
  -- likes; here it reads all.
  unfoldable pub handle_request : ℕ → RequestBuffer → Handler → Result Fault Handled
  handle_request size rb h = do
    (text, rb') ← or_else bad_buffer (read size (request_len size rb) rb)
    type ← or_else bad_json (json.decode_request text)
    (_, rb'') ← or_else bad_buffer (seek size 0 seek_start rb')
    (text', _) ← or_else bad_buffer (read size (request_len size rb'') rb'')
    dispatch h text' type

  -- The two deferred functions: the response, and a newline.
  abbrev pub respond : Handler → Result Fault Handled → Outcome
  respond h (ok (answered r h')) = written (json.encode r ++ 10 ∷ []) h'
  respond h (ok (awaits_job c h')) = blocked [] c h'
  respond h (err (refused id panics)) = crashed []
  respond h (err (bad_buffer index_out_of_range)) = crashed []
  respond h (err f) = written (json.encode (error_response f) ++ 10 ∷ []) h

  unfoldable pub serve : ℕ → RequestBuffer → Handler → Outcome
  serve size rb h =
      if request_len size rb == 0 then written (10 ∷ []) h else respond h (handle_request size rb h)

  -- The loop over the buffers that come through `reqChan`.
  unfoldable pub serve_all : ℕ → List RequestBuffer → Handler → Outcome
  serve_all size [] h = written [] h
  serve_all size (rb ∷ rbs) h = and_then (serve size rb h) (serve_all size rbs)

abbrev pub total : List Bytes → ℕ
total [] = 0
total (r ∷ rs) = length r + total rs

-- `looper`, for the reads of a connection; reading takes no more rounds than there are bytes.
abbrev pub looper : Json → Bytes → (List Bytes → List Bytes) → ℕ → List Bytes → Handler → Outcome
looper json client order size reads h =
    serve_all json client order size (read_requests (total reads) size reads []) h
