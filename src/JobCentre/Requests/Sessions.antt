-- ===== src/JobCentre/Requests/Sessions.antt =====
-- 9-job-centre/proto/server.go: a connection answers as a server that is given one line after the other.
use protohackers.Prelude.{
  ℕ, ◌<◌, ◌≡◌, ◌∙◌, refl, ap, fun_ext, false, List, [], ◌∷◌, map, Result, ok, err, ◌>>=◌, Bytes,
  ◌==◌, ==_iff, length, length-append, All, arith,
}
use protohackers.Prelude.TextLines.{lines}
use protohackers.JobCentre.Handler.{Handler}
use protohackers.JobCentre.Requests.{
  RequestBuffer, request_len, read, seek, seek_start, read_requests,
}
use protohackers.JobCentre.Requests.Layout.{contents, IsPacked, max_size_lem}
use protohackers.JobCentre.Requests.Lines.{stream, IsRead, HoldLines, read_requests_lem}
use protohackers.JobCentre.Requests.Reads.{read_whole, seek_start_lem}
use protohackers.JobCentre.Requests.Dispatch.{
  Json, Fault, Outcome, written, or_else, bad_json, bad_buffer, dispatch, handle_request, respond,
  serve, serve_all, and_then, total, looper,
}

abbrev IsFresh : ℕ → RequestBuffer → Type 0
IsFresh size rb = IsPacked size rb.chunks × (rb.closed ≡ false) × (rb.pos ≡ 0)

length-stream : (reads : List Bytes) → length (stream reads) ≡ total reads
length-stream [] = refl
length-stream (r ∷ rs) = omega (arith, length-append r (stream rs), length-stream rs)

module _ (json : Json) (client : Bytes) (order : List Bytes → List Bytes) where
  -- The answer to a line.
  abbrev pub serve_line : Bytes → Handler → Outcome
  serve_line [] h = written (10 ∷ []) h
  serve_line (c ∷ cs) h =
      respond json client order h
        (or_else bad_json (json.decode_request (c ∷ cs)) >>= dispatch json client order h (c ∷ cs))

  abbrev pub serve_lines : List Bytes → Handler → Outcome
  serve_lines [] h = written [] h
  serve_lines (l ∷ ls) h = and_then (serve_line l h) (serve_lines ls)

  -- Once the type is known, the request is read again.
  decoded :
      (size : ℕ) (rb : RequestBuffer) (h : Handler) (s : Bytes) (first : Result Fault Bytes)
      → 0 < size
      → IsFresh size rb
      → contents rb.chunks ≡ s
      → 0 < length s
      → (first >>= λ type.
          or_else bad_buffer (seek size 0 seek_start (record rb { pos = length s })) >>= λ p.
          or_else bad_buffer (read size (request_len size p.1) p.1) >>= λ q.
          dispatch json client order h q.0 type)
        ≡ (first >>= dispatch json client order h s)
  decoded size rb h s (err e) posi fresh is_s some_bytes = refl
  decoded size rb h s (ok type) posi (packed, open_, start) is_s some_bytes =
      let rb' : RequestBuffer = record rb { pos = length s } in
      let sought = seek_start_lem size rb' packed open_ (omega (arith, ap length is_s)) in
      let again =
        read_whole size (record rb { pos = 0 }) posi packed open_ refl
          (omega (arith, ap length is_s)) in
      rw (sought, again, is_s) refl

  handle_request_lem :
      (size : ℕ) (rb : RequestBuffer) (h : Handler) (s : Bytes)
      → 0 < size
      → IsFresh size rb
      → contents rb.chunks ≡ s
      → 0 < length s
      → handle_request json client order size rb h
        ≡ (or_else bad_json (json.decode_request s) >>= dispatch json client order h s)
  unfolding handle_request
  handle_request_lem size rb h s posi (packed, open_, start) is_s some_bytes =
      let whole = read_whole size rb posi packed open_ start (omega (arith, ap length is_s)) in
      rw (whole, is_s)
        (decoded size rb h s (or_else bad_json (json.decode_request s)) posi (packed, open_, start)
          is_s some_bytes)

  serve_lem :
      (size : ℕ) (rb : RequestBuffer) (h : Handler) (s : Bytes)
      → 0 < size
      → IsFresh size rb
      → contents rb.chunks ≡ s
      → serve json client order size rb h ≡ serve_line s h
  unfolding serve
  serve_lem size rb h [] posi fresh is_s =
      let none_left : request_len size rb ≡ 0 =
        (max_size_lem size rb.chunks fresh.0 ∙ ap length is_s) in
      rw none_left refl
  serve_lem size rb h (c ∷ cs) posi fresh is_s =
      let some_left : (request_len size rb == 0) ≡ false =
        (ground (
          arith,
          max_size_lem size rb.chunks fresh.0,
          ap length is_s,
          ==_iff (request_len size rb) 0,
        )) in
      rw (some_left, handle_request_lem size rb h (c ∷ cs) posi fresh is_s (omega arith)) refl

  serve_all_lem :
      (size : ℕ) (ls : List Bytes) (rbs : List RequestBuffer) (h : Handler)
      → 0 < size
      → HoldLines size ls rbs
      → serve_all json client order size rbs h ≡ serve_lines ls h
  unfolding serve_all
  serve_all_lem size [] [] h posi hold = refl
  serve_all_lem size [] (rb ∷ rbs) h posi hold = cc (hold.0)
  serve_all_lem size (l ∷ ls) [] h posi hold = cc (hold.0)
  serve_all_lem size (l ∷ ls) (rb ∷ rbs) h posi (e, (fresh, all)) =
      let first : contents rb.chunks ≡ l = cc in
      let rest : map (λ (rb : RequestBuffer). contents rb.chunks) rbs ≡ ls = cc in
      let next : serve_all json client order size rbs ≡ serve_lines ls =
        (fun_ext (λ h'. serve_all_lem size ls rbs h' posi (rest, all))) in
      rw (serve_lem size rb h l posi fresh first, next) refl

  -- However the bytes of a client are cut into reads, its connection answers line by line: the bytes of the
  -- answers, the handler that is left and whether it ends in a wait depend on the lines only.
  pub looper_lem :
      (size : ℕ) (reads : List Bytes) (h : Handler)
      → 0 < size
      → All (IsRead size) reads
      → looper json client order size reads h ≡ serve_lines (lines (stream reads)) h
  looper_lem size reads h posi small =
      serve_all_lem size (lines (stream reads)) (read_requests (total reads) size reads []) h posi (
        read_requests_lem (total reads) size reads [] posi small (omega arith)
          (omega (arith, length-stream reads)))
