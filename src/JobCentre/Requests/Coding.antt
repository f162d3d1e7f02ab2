-- ===== src/JobCentre/Requests/Coding.antt =====
-- 9-job-centre/proto/server.go: a coding of requests and responses in the place of JSON, for tests.
use protohackers.Prelude.{
  ℕ, ◌+◌, ◌-◌, false, [], ◌∷◌, Result, ok, err, Bytes, codes, if◌then◌else◌, ◌==◌,
}
use protohackers.JobCentre.Requests.Dispatch.{
  Json, Response, succeeded, put_response, get_response, failed,
}

-- A request is its first byte; a put is a priority and the value, for the queue "q".
abbrev decode_first : Bytes → Result Bytes Bytes
decode_first [] = err (codes "EOF")
decode_first (c ∷ cs) =
    if c == b'p'
    then ok (codes "put")
    else if c == b'g'
    then ok (codes "get")
    else if c == b'd'
    then ok (codes "delete")
    else if c == b'a'
    then ok (codes "abort")
    else err (codes "syntax")

abbrev decode_priority : Bytes → Result Bytes (Bytes × Bytes × ℕ)
decode_priority [] = err (codes "EOF")
decode_priority (c ∷ []) = err (codes "EOF")
decode_priority (c ∷ d ∷ cs) = ok (codes "q", cs, d - b'0')

abbrev decode_digit : Bytes → Result Bytes ℕ
decode_digit [] = err (codes "EOF")
decode_digit (c ∷ []) = err (codes "EOF")
decode_digit (c ∷ d ∷ cs) = ok (d - b'0')

abbrev encode_short : Response → Bytes
encode_short succeeded = codes "ok"
encode_short (put_response id) = (b'0' + id) ∷ []
encode_short (get_response j) = j.job
encode_short (failed status message) = status

abbrev pub short_json : Json
short_json = record {
  decode_request = decode_first;
  decode_put = decode_priority;
  decode_get = λ s. ok (codes "q" ∷ [], false);
  decode_id = decode_digit;
  encode = encode_short;
}
