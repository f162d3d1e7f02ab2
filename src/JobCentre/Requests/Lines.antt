-- ===== src/JobCentre/Requests/Lines.antt =====
-- 9-job-centre/proto/server.go: the buffers that the reading routine sends, and the lines of the stream.
use protohackers.Prelude.{
  ℕ, zero, suc, ◌≤◌, ◌<◌, ◌≡◌, ◌∙◌, refl, sym, ap, false, inl, inr, List, [], ◌∷◌, ◌++◌, map,
  Option, none, some, Bytes, ◌==◌, Bool-cases, length, take, take_all, length-append, All, arith,
}
use protohackers.Prelude.TextLines.{begin_with, lines, begin_with-append, begin_with-nil}
use protohackers.JobCentre.Requests.{
  RequestBuffer, new_request_buffer, NextRequest, split_newline, add_data, with_data, found_newline,
  read_request, next_request_buffer, read_requests,
}
use protohackers.JobCentre.Requests.Layout.{contents, IsPacked, add_data_lem}

-- The bytes of a list of reads.
abbrev pub stream : List Bytes → Bytes
stream [] = []
stream (r ∷ rs) = r ++ stream rs

abbrev pub IsRead : ℕ → Bytes → Type 0
IsRead size r = length r ≤ size

abbrev SplitsLines : Bytes → Bytes → Bytes × Option Bytes → Type 0
SplitsLines s t (before, none) = lines (s ++ t) ≡ begin_with before (lines t)
SplitsLines s t (before, some rest) =
    (lines (s ++ t) ≡ before ∷ lines (rest ++ t)) × (length rest < length s)

SplitsLines-first :
    (s t : Bytes) (c : ℕ) (p : Bytes × Option Bytes)
    → (c == 10) ≡ false
    → SplitsLines s t p
    → SplitsLines (c ∷ s) t (c ∷ p.0, p.1)
SplitsLines-first s t c (before, none) other h =
    ground (arith, h, begin_with-append (c ∷ []) before (lines t))
SplitsLines-first s t c (before, some rest) other (h, lt) = (ground (arith, h), omega arith)

split_newline_lem : (s t : Bytes) → SplitsLines s t (split_newline s)
unfolding split_newline
split_newline_lem [] t = sym (begin_with-nil (lines t))
split_newline_lem (c ∷ cs) t =
    let rest = split_newline_lem cs t in
    elim (Bool-cases (c == 10)) [
      | inl newline ↦ rw newline (rw newline refl, omega arith)
      | inr other ↦
          let first = SplitsLines-first cs t c (split_newline cs) other rest in rw other first
    ]

-- What a call of `nextRequestBuffer` does to the lines of the stream `s`, of whose first line `start` was
-- read before.
abbrev FirstLine : ℕ → Bytes → Bytes → Option NextRequest → Type 0
FirstLine size start s none = lines s ≡ []
FirstLine size start s (some r) =
    IsPacked size r.buffer.chunks
    × (begin_with start (lines s) ≡ contents r.buffer.chunks ∷ lines (r.rest_buf ++ stream r.reads))
    × All (IsRead size) r.reads
    × (length r.rest_buf ≤ size)
    × (length (r.rest_buf ++ stream r.reads) < length s)
    × (r.buffer.closed ≡ false)
    × (r.buffer.pos ≡ 0)

-- A round whose `buf` is `s`.
read_round :
    (size : ℕ) (s : Bytes) (reads : List Bytes) (rb : RequestBuffer) (more : Option NextRequest)
    (p : Bytes × Option Bytes)
    → length s ≤ size
    → All (IsRead size) reads
    → rb.closed ≡ false
    → rb.pos ≡ 0
    → SplitsLines s (stream reads) p
    → (chunks : List Bytes) → IsPacked size chunks
    → contents chunks ≡ contents rb.chunks ++ p.0
    → FirstLine size (contents chunks) (stream reads) more
    → FirstLine size
        (contents rb.chunks)
        (s ++ stream reads)
        (found_newline size reads (with_data chunks rb) more p.1)
read_round size s reads rb none (before, none) le small open_ start h chunks packed e more =
    h ∙ ap (begin_with before) more
read_round size s reads rb (some r) (before, none) le small open_ start h chunks packed e more =
    let (packed', first, small', le', lt, open', start') = more in
    (
      packed',
      ap (begin_with (contents rb.chunks)) h
          ∙ sym (begin_with-append (contents rb.chunks) before (lines (stream reads)))
          ∙ ap (λ l. begin_with l (lines (stream reads))) (sym e)
          ∙ first,
      small',
      le',
      omega (arith, length-append s (stream reads)),
      open',
      start',
    )
read_round size s reads rb more (before, some rest) le small open_ start (h, lt) chunks packed e
      next =
    let all_fits : take size rest ≡ rest = (take_all size rest (omega arith)) in
    rw all_fits (
      packed,
      ap (begin_with (contents rb.chunks)) h ∙ ap (λ l. l ∷ lines (rest ++ stream reads)) (sym e),
      small,
      omega arith,
      omega (arith, length-append rest (stream reads), length-append s (stream reads)),
      open_,
      start,
    )

read_request_lem :
    (size : ℕ) (reads : List Bytes) (rb : RequestBuffer)
    → 0 < size
    → All (IsRead size) reads
    → IsPacked size rb.chunks
    → rb.closed ≡ false
    → rb.pos ≡ 0
    → FirstLine size (contents rb.chunks) (stream reads) (read_request size reads rb)
unfolding read_request
read_request_lem size [] rb pos small packed open_ start = refl
read_request_lem size ([] ∷ reads) rb pos (_, small) packed open_ start =
    read_request_lem size reads rb pos small packed open_ start
read_request_lem size ((c ∷ cs) ∷ reads) rb pos (le, small) packed open_ start =
    let p = split_newline (c ∷ cs) in
    let (packed', e) = add_data_lem size p.0 rb.chunks pos packed in
    read_round size (c ∷ cs) reads rb _ p le small open_ start
      (split_newline_lem (c ∷ cs) (stream reads)) (add_data size p.0 rb.chunks) packed' e
      (read_request_lem size reads (with_data (add_data size p.0 rb.chunks) rb) pos small packed'
        open_ start)

-- The buffers hold the lines, each in full chunks but for the last, and are to be read from the start.
abbrev pub HoldLines : ℕ → List Bytes → List RequestBuffer → Type 0
HoldLines size ls rbs =
    (map (λ (rb : RequestBuffer). contents rb.chunks) rbs ≡ ls)
    × All (λ (rb : RequestBuffer). IsPacked size rb.chunks × (rb.closed ≡ false) × (rb.pos ≡ 0)) rbs

HoldLines-cons :
    (size : ℕ) (l : Bytes) (ls : List Bytes) (rb : RequestBuffer) (rbs : List RequestBuffer)
    → contents rb.chunks ≡ l
    → IsPacked size rb.chunks × (rb.closed ≡ false) × (rb.pos ≡ 0)
    → HoldLines size ls rbs
    → HoldLines size (l ∷ ls) (rb ∷ rbs)
HoldLines-cons size l ls rb rbs e fresh (es, all) = (ground (arith, e, es), (fresh, all))

next_request_buffer_lem :
    (size : ℕ) (reads : List Bytes) (prev_buf : Bytes)
    → 0 < size
    → All (IsRead size) reads
    → length prev_buf ≤ size
    → FirstLine size []
        (prev_buf ++ stream reads)
        (next_request_buffer size reads new_request_buffer prev_buf)
unfolding next_request_buffer
next_request_buffer_lem size reads [] pos small le =
    read_request_lem size reads new_request_buffer pos small tt refl refl
next_request_buffer_lem size reads (c ∷ cs) pos small le =
    rw (take_all size (c ∷ cs) le)
      (read_request_lem size ((c ∷ cs) ∷ reads) new_request_buffer pos (le, small) tt refl refl)

lines_short : (s : Bytes) → length s ≤ 0 → lines s ≡ []
lines_short [] le = refl
lines_short (c ∷ cs) le = absurd (omega arith)

-- However the stream is cut into reads, and with as many rounds as it has bytes, the reading routine
-- sends one buffer for each line that ends in a newline, in their order; it holds that line, and is to be
-- read from its start.
pub read_requests_lem :
    (rounds size : ℕ) (reads : List Bytes) (prev_buf : Bytes)
    → 0 < size
    → All (IsRead size) reads
    → length prev_buf ≤ size
    → length (prev_buf ++ stream reads) ≤ rounds
    → HoldLines size (lines (prev_buf ++ stream reads)) (read_requests rounds size reads prev_buf)
unfolding read_requests
read_requests_lem zero size reads prev_buf pos small le enough =
    (sym (lines_short (prev_buf ++ stream reads) enough), tt)
read_requests_lem (suc rounds) size reads prev_buf pos small le enough =
    go (next_request_buffer size reads new_request_buffer prev_buf)
      (next_request_buffer_lem size reads prev_buf pos small le) (read_requests_lem rounds size)
  where
    go :
        (o : Option NextRequest)
        → FirstLine size [] (prev_buf ++ stream reads) o
        → ((reads' : List Bytes) (prev_buf' : Bytes)
            → 0 < size
            → All (IsRead size) reads'
            → length prev_buf' ≤ size
            → length (prev_buf' ++ stream reads') ≤ rounds
            → HoldLines size
                (lines (prev_buf' ++ stream reads'))
                (read_requests rounds size reads' prev_buf'))
        → HoldLines size (lines (prev_buf ++ stream reads)) (elim o [
          | none ↦ []
          | some r ↦ r.buffer ∷ read_requests rounds size r.reads r.rest_buf
        ])
    go none none_left rest = rw none_left (refl, tt)
    go (some r) (packed, first, small', le', lt, open', start') rest =
        rw (sym (begin_with-nil (lines (prev_buf ++ stream reads))) ∙ first) (
          HoldLines-cons size _ _ r.buffer _ refl (packed, open', start')
            (rest r.reads r.rest_buf pos small' le' (omega arith)))
