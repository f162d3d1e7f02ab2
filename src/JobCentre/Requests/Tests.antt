-- ===== src/JobCentre/Requests/Tests.antt =====
-- 9-job-centre/proto/server.go: small connections, with a coding in the place of JSON.
use protohackers.Prelude.{
  ◌≡◌, ◌<◌, ◌≤◌, ◌⊎◌, refl, false, List, [], ◌∷◌, ◌++◌, ok, err, Bytes, codes, All, arith,
}
use protohackers.JobCentre.Heap.{heap_push, up, push_back, heap_pop, pop_back, down, swap}
use protohackers.JobCentre.Queues.{pop_round, highest, push}
use protohackers.Prelude.TextLines.{lines}
use protohackers.JobCentre.Handler.{
  Handler, init_queue_handler, on_client_connected, put_job, get_job,
}
use protohackers.JobCentre.Requests.{
  RequestBuffer, read, read_requests, close, seek, eof, closed_buffer, split_newline, fill,
  read_request, next_request_buffer, copy_out,
}
use protohackers.JobCentre.Requests.Lines.{stream, IsRead}
use protohackers.JobCentre.Requests.Reads.{read_lem}
use protohackers.JobCentre.Requests.Dispatch.{
  Outcome, written, blocked, crashed, looper, serve_all, serve, dispatch, handle_request,
}
use protohackers.JobCentre.Requests.Coding.{short_json}
use protohackers.JobCentre.Requests.Sessions.{serve_lines, looper_lem}

-- Three lines, the second of which is empty, and the start of a fourth, in four reads of at most 4 bytes.
abbrev reads : List Bytes
reads = codes "p7" ∷ (codes "ab" ++ 10 ∷ 10 ∷ []) ∷ (codes "g" ++ 10 ∷ codes "x") ∷ codes "yz" ∷ []

requests_run : lines (stream reads) ≡ codes "p7ab" ∷ [] ∷ codes "g" ∷ []
requests_run = refl

small_reads : All (IsRead 4) reads
small_reads = (omega arith, (omega arith, (omega arith, (omega arith, tt))))

-- Two chunks of capacity 4, read from the third byte.
abbrev two_chunks : RequestBuffer
two_chunks = record { closed = false; chunks = codes "ef" ∷ codes "abcd" ∷ []; pos = 2 }

read_lem_example :
    ((2 < 6) × (read 4 3 two_chunks ≡ ok (codes "cde", record two_chunks { pos = 5 })))
    ⊎ ((6 ≤ 2) × (read 4 3 two_chunks ≡ err eof))
read_lem_example = read_lem 4 3 two_chunks (omega arith) (omega arith, (refl, tt)) refl

closed_read : read 4 3 (close two_chunks) ≡ err closed_buffer
unfolding read close copy_out
closed_read = refl

abbrev alone : Handler
alone = on_client_connected (codes "alice") init_queue_handler

looper_lem_example :
    looper short_json (codes "alice") (λ q. q) 4 reads alone
    ≡ serve_lines short_json (codes "alice") (λ q. q) (codes "p7ab" ∷ [] ∷ codes "g" ∷ []) alone
looper_lem_example =
    looper_lem short_json (codes "alice") (λ q. q) 4 reads alone (omega arith) small_reads

abbrev output : Outcome → Bytes
output (written w h) = w
output (blocked w c h) = w
output (crashed w) = w

-- The id of the job, nothing, and the job.
looper_run :
    output (looper short_json (codes "alice") (λ q. q) 4 reads alone)
    ≡ (codes "1" ++ 10 ∷ 10 ∷ []) ++ codes "ab" ++ 10 ∷ []
unfolding read_requests next_request_buffer read_request split_newline fill read copy_out seek
    serve_all serve dispatch handle_request put_job get_job on_client_connected pop_round highest
    push heap_push up push_back heap_pop pop_back down swap
looper_run = refl
