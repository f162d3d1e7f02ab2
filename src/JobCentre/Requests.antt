-- ===== src/JobCentre/Requests.antt =====
-- 9-job-centre/proto/server.go: the requests of a connection, one in each line, kept in chunks of a
-- fixed capacity. The connection is the list of what its reads give, which an error ends.
mod Tests
pub mod Coding
pub mod Layout
pub mod Lines
pub mod Reads
pub mod Dispatch
pub mod Sessions
use protohackers.Prelude.{
  ℕ, zero, suc, ◌+◌, ◌-◌, ◌*◌, ◌/◌, ◌%◌, Bool, true, false, List, [], ◌∷◌, ◌++◌, reverse, Option,
  none, some, Result, ok, err, Bytes, ◌==◌, ltb, leb, if◌then◌else◌, length, take, drop, get_elem?,
}

-- `requestBuffer`, with `data` in `chunks`: the head is the last chunk.
pub record RequestBuffer : Type 0 where
  pub closed : Bool
  pub chunks : List Bytes
  pub pos : ℕ

abbrev pub new_request_buffer : RequestBuffer
new_request_buffer = record { closed = false; chunks = []; pos = 0 }

-- The loop that looks for the newline, with the bytes before it and those after it, if it is there.
unfoldable pub split_newline : Bytes → Bytes × Option Bytes
split_newline [] = ([], none)
split_newline (c ∷ cs) =
    let (before, after) = split_newline cs in if c == 10 then ([], some cs) else (c ∷ before, after)

abbrev pub first_chunk : List Bytes → List Bytes
first_chunk [] = [] ∷ []
first_chunk (b ∷ d) = b ∷ d

-- The last chunk has room, after this.
abbrev pub next_chunk : ℕ → List Bytes → List Bytes
next_chunk size [] = []
next_chunk size (b ∷ d) = if length b == size then [] ∷ b ∷ d else b ∷ d

-- `copy` into the rest of the last chunk; there is one here.
abbrev pub copy_chunk : ℕ → Bytes → List Bytes → List Bytes × Bytes
copy_chunk size before [] = ([], before)
copy_chunk size before (b ∷ d) =
    ((b ++ take (size - length b) before) ∷ d, drop (size - length b) before)

-- `for len(dataBeforeNewLine) > 0`, for as many rounds as the first argument.
unfoldable pub fill : ℕ → ℕ → Bytes → List Bytes → List Bytes
fill zero size before chunks = chunks
fill (suc rounds) size [] chunks = chunks
fill (suc rounds) size (c ∷ cs) chunks =
    let (chunks', before) = copy_chunk size (c ∷ cs) (next_chunk size chunks) in
    fill rounds size before chunks'

-- A round copies a byte at least.
abbrev pub add_data : ℕ → Bytes → List Bytes → List Bytes
add_data size before chunks = fill (length before) size before (first_chunk chunks)

-- A finished buffer, with `restBuf` and the reads that are left.
pub record NextRequest : Type 0 where
  pub buffer : RequestBuffer
  pub rest_buf : Bytes
  pub reads : List Bytes

abbrev pub with_data : List Bytes → RequestBuffer → RequestBuffer
with_data chunks rb = record rb { chunks = chunks }

-- The end of a round: `more` is what the next rounds give.
abbrev pub found_newline :
    ℕ → List Bytes → RequestBuffer → Option NextRequest → Option Bytes → Option NextRequest
found_newline size reads rb more none = more
found_newline size reads rb more (some rest) =
    some (record { buffer = rb; rest_buf = take size rest; reads = reads })

-- The loop of `nextRequestBuffer` over what it has in `buf`.
unfoldable pub read_request : ℕ → List Bytes → RequestBuffer → Option NextRequest
read_request size [] rb = none
read_request size ([] ∷ reads) rb = read_request size reads rb
read_request size ((c ∷ cs) ∷ reads) rb =
    let (before, after) = split_newline (c ∷ cs) in
    let rb' = with_data (add_data size before rb.chunks) rb in
    let more = read_request size reads rb' in found_newline size reads rb' more after

unfoldable pub next_request_buffer : ℕ → List Bytes → RequestBuffer → Bytes → Option NextRequest
next_request_buffer size reads rb [] = read_request size reads rb
next_request_buffer size reads rb (c ∷ cs) = read_request size (take size (c ∷ cs) ∷ reads) rb

-- The routine that reads, in `looper`: the buffers that it sends, in at most as many rounds as the first
-- argument.
unfoldable pub read_requests : ℕ → ℕ → List Bytes → Bytes → List RequestBuffer
read_requests zero size reads prev_buf = []
read_requests (suc rounds) size reads prev_buf =
    elim (next_request_buffer size reads new_request_buffer prev_buf) [
      | none ↦ []
      | some r ↦ r.buffer ∷ read_requests rounds size r.reads r.rest_buf
    ]

-- The size of `data`, as `Len`, `Seek` and `Read` compute it.
abbrev pub max_size : ℕ → List Bytes → ℕ
max_size size [] = 0
max_size size (b ∷ d) = length d * size + length b

abbrev pub request_len : ℕ → RequestBuffer → ℕ
request_len size rb = max_size size rb.chunks

-- `index_out_of_range` is the panic at `r.data[0]`.
pub data BufferError : Type 0 where
  closed_buffer out_of_range unimplemented unknown_whence eof index_out_of_range : BufferError

-- `io.SeekStart` and so on
pub data Whence : Type 0 where
  seek_start seek_current seek_end seek_other : Whence

abbrev pub seek_to : ℕ → ℕ → RequestBuffer → Whence → Result BufferError (ℕ × RequestBuffer)
seek_to size offset rb seek_start =
    if leb (max_size size rb.chunks) offset
    then err out_of_range
    else ok (rb.pos, record rb { pos = 0 })
seek_to size offset rb seek_current = err unimplemented
seek_to size offset rb seek_end = err unimplemented
seek_to size offset rb seek_other = err unknown_whence

abbrev pub seek_data :
    ℕ → ℕ → Whence → RequestBuffer → List Bytes → Result BufferError (ℕ × RequestBuffer)
seek_data size offset whence rb [] = err index_out_of_range
seek_data size offset whence rb (b ∷ d) = seek_to size offset rb whence

-- `Seek` to an offset that is not negative.
unfoldable pub seek : ℕ → ℕ → Whence → RequestBuffer → Result BufferError (ℕ × RequestBuffer)
seek size offset whence rb =
    if rb.closed then err closed_buffer else seek_data size offset whence rb rb.chunks

abbrev pub or_nil : Option Bytes → Bytes
or_nil none = []
or_nil (some b) = b

-- The loop of `Read` into the `room` bytes that are left in `p`, over the chunks from the first; what it
-- copies. A round copies a byte at least.
unfoldable pub copy_out : ℕ → ℕ → List Bytes → ℕ → ℕ → ℕ → Bytes
copy_out zero size chunks max pos room = []
copy_out (suc rounds) size chunks max pos room =
    let copied = take room (drop (pos % size) (or_nil (get_elem? chunks (pos / size)))) in
    let rest = copy_out rounds size chunks max (pos + length copied) (room - length copied) in
    if room == 0 then [] else if ltb pos max then copied ++ rest else []

-- `Read` into a slice of length `room`.
unfoldable pub read : ℕ → ℕ → RequestBuffer → Result BufferError (Bytes × RequestBuffer)
read size room rb =
    let max = max_size size rb.chunks in
    let out = copy_out room size (reverse rb.chunks) max rb.pos room in
    if rb.closed
    then err closed_buffer
    else if leb max rb.pos
    then err eof
    else ok (out, record rb { pos = rb.pos + length out })

unfoldable pub close : RequestBuffer → RequestBuffer
close rb = if rb.closed then rb else record rb { closed = true; chunks = [] }
