-- ===== src/JobCentre/Requests/Reads.antt =====
-- 9-job-centre/proto/server.go: what `Read`, `Seek` and `Len` give of a buffer that was filled.
use protohackers.Prelude.{
  ℕ, zero, suc, ◌+◌, ◌-◌, ◌*◌, ◌/◌, ◌%◌, ◌≤◌, ◌<◌, ◌≡◌, ◌∙◌, refl, sym, ap, false, inl, inr, ◌⊎◌,
  List, [], ◌∷◌, ◌++◌, append-nil, append_assoc, reverse, Bytes, ◌==◌, ltb, leb, Bool-cases, length,
  take, drop, take_all, drop_all, drop-length-append, ==_iff, get_elem?, length-append, length-take,
  length-drop, arith, if◌then◌else◌, ok, err,
}
use mathlib.Core.List.{reverse-cons}
use native.Mathlib.Decide.{dec_lt}
use native.Mathlib.Nat.{div-eq_of_lt-le, div-lt_iff_lt-mul, mod-eq-sub-div-mul}
use protohackers.Prelude.Slices.{
  drop-append_le, drop-append_ge, take-append, drop-drop, get_elem?-append_lt,
  get_elem?-append_last, length-reverse,
}
use protohackers.JobCentre.Requests.{
  RequestBuffer, max_size, or_nil, copy_out, read, seek_data, seek, closed_buffer, eof, seek_start,
  request_len,
}
use protohackers.JobCentre.Requests.Layout.{
  contents, AreFull, IsPacked, max_size_lem, length-contents,
}

-- The rest of the chunk that `pos` is in.
abbrev segment : ℕ → List Bytes → ℕ → Bytes
segment size chunks pos = drop (pos % size) (or_nil (get_elem? (reverse chunks) (pos / size)))

-- It is followed by the bytes of the later chunks.
abbrev Segment : ℕ → List Bytes → ℕ → Type 0
Segment size chunks pos =
    (rest : Bytes) × (drop pos (contents chunks) ≡ segment size chunks pos ++ rest)
    × (0 < length (segment size chunks pos))

AreFull-IsPacked : (size : ℕ) (d : List Bytes) → AreFull size d → IsPacked size d
AreFull-IsPacked size [] full = tt
AreFull-IsPacked size (b ∷ d) (is_full, full) = (omega arith, full)

segment-cons :
    (size : ℕ) (b : Bytes) (d : List Bytes) (pos : ℕ)
    → pos / size < length d
    → segment size (b ∷ d) pos ≡ segment size d pos
segment-cons size b d pos lt =
    rw
      (
        reverse-cons b d,
        get_elem?-append_lt (reverse d) b (pos / size) (omega (arith, length-reverse d)),
      )
      refl

segment-last :
    (size : ℕ) (b : Bytes) (d : List Bytes) (pos : ℕ)
    → pos / size ≡ length d
    → segment size (b ∷ d) pos ≡ drop (pos - length d * size) b
segment-last size b d pos e =
    rw
      (
        reverse-cons b d,
        get_elem?-append_last (reverse d) b (pos / size) (omega (arith, length-reverse d)),
        mod-eq-sub-div-mul pos size,
        e,
      )
      refl

segment_lem :
    (size : ℕ) (chunks : List Bytes) (pos : ℕ)
    → 0 < size
    → IsPacked size chunks
    → pos < length (contents chunks)
    → Segment size chunks pos
segment_lem size [] pos posi packed lt = absurd (omega arith)
segment_lem size (b ∷ d) pos posi (le, full) lt = elim (dec_lt pos (length (contents d))) [
  | yes before ↦
      let (rest, e, some_left) =
        segment_lem size d pos posi (AreFull-IsPacked size d full) before in
      let same =
        segment-cons size b d pos
          ((div-lt_iff_lt-mul posi).1 (omega (arith, length-contents size d full))) in
      (
        rest ++ b,
        drop-append_le pos (contents d) b (omega arith)
            ∙ ap (λ t. t ++ b) e
            ∙ append_assoc (segment size d pos) rest b
            ∙ ap (λ t. t ++ (rest ++ b)) (sym same),
        omega (arith, ap length same),
      )
  | no after ↦
      let len = length-contents size d full in
      let last =
        segment-last size b d pos
          (div-eq_of_lt-le size (omega arith) (omega (arith, length-append (contents d) b))) in
      (
        [],
        drop-append_ge pos (contents d) b (omega arith)
            ∙ ap (λ k. drop k b) (ap (λ k. pos - k) len)
            ∙ sym last
            ∙ sym (append-nil (segment size (b ∷ d) pos)),
        omega (
          arith,
          ap length last,
          length-drop (pos - length d * size) b,
          length-append (contents d) b,
        ),
      )
]

-- What one round copies out of `seg ++ rest`, and what is left to copy.
copied_round :
    (size pos room : ℕ) (s seg rest : Bytes)
    → drop pos s ≡ seg ++ rest
    → let n = length (take room seg) in
      take room seg ++ take (room - n) (drop (pos + n) s) ≡ take room (drop pos s)
copied_round size pos room s seg rest e = elim (dec_lt (length seg) room) [
  | yes whole ↦
      let all : take room seg ≡ seg = (take_all room seg (omega arith)) in
      let left : drop (pos + length seg) s ≡ rest =
        (sym (drop-drop (length seg) pos s)
          ∙ ap (drop (length seg)) e
          ∙ drop-length-append seg rest) in
      rw all (
        rw (left, e)
          (sym (take-append room seg rest ∙ ap (λ t. t ++ take (room - length seg) rest) all)))
  | no part ↦
      let n : length (take room seg) ≡ room = (omega (arith, length-take room seg)) in
      rw (n, e, take-append room seg rest) (ground arith)
]

copy_out_lem :
    (rounds size : ℕ) (chunks : List Bytes) (pos room : ℕ)
    → 0 < size
    → IsPacked size chunks
    → room ≤ rounds
    → copy_out rounds size (reverse chunks) (max_size size chunks) pos room
      ≡ take room (drop pos (contents chunks))
unfolding copy_out
copy_out_lem zero size chunks pos zero posi packed le = refl
copy_out_lem zero size chunks pos (suc room) posi packed le = absurd (omega arith)
copy_out_lem (suc rounds) size chunks pos zero posi packed le = refl
copy_out_lem (suc rounds) size chunks pos (suc room) posi packed le =
    let len = max_size_lem size chunks packed in
    let room_left : (suc room == 0) ≡ false = (ground (arith, ==_iff (suc room) 0)) in
    let seg = segment size chunks pos in
    let next =
      copy_out_lem rounds size chunks (pos + length (take (suc room) seg))
        (suc room - length (take (suc room) seg)) posi packed in
    elim (Bool-cases (ltb pos (max_size size chunks))) [
      | inl inside ↦
          let (rest, e, some_left) =
            segment_lem size chunks pos posi packed (ground (arith, len)) in
          rw (room_left, inside, next (omega (arith, length-take (suc room) seg)))
            (copied_round size pos (suc room) (contents chunks) seg rest e)
      | inr outside ↦
          rw (room_left, outside, drop_all pos (contents chunks) (ground (arith, len))) refl
    ]

-- `Read` into a slice of length `room` on a buffer that was filled and not closed: from the position it
-- copies as many of the bytes as there are and fit, over the borders of the chunks, and moves the
-- position behind them; at the end it answers EOF.
pub read_lem :
    (size room : ℕ) (rb : RequestBuffer)
    → 0 < size
    → IsPacked size rb.chunks
    → rb.closed ≡ false
    → let out = take room (drop rb.pos (contents rb.chunks)) in
      ((rb.pos < length (contents rb.chunks))
        × (read size room rb ≡ ok (out, record rb { pos = rb.pos + length out })))
      ⊎ ((length (contents rb.chunks) ≤ rb.pos) × (read size room rb ≡ err eof))
unfolding read
read_lem size room rb pos packed open_ =
    let len = max_size_lem size rb.chunks packed in
    rw (open_, copy_out_lem room size rb.chunks rb.pos room pos packed (omega arith))
      (elim (Bool-cases (leb (max_size size rb.chunks) rb.pos)) [
        | inl over ↦ inr (ground (arith, len), rw over refl)
        | inr within ↦ inl (ground (arith, len), rw within refl)
      ])

seek_data_start :
    (size : ℕ) (rb : RequestBuffer) (chunks : List Bytes)
    → 0 < length (contents chunks)
    → max_size size rb.chunks ≡ length (contents chunks)
    → seek_data size 0 seek_start rb chunks ≡ ok (rb.pos, record rb { pos = 0 })
seek_data_start size rb [] some_bytes len = absurd (omega arith)
seek_data_start size rb (b ∷ d) some_bytes len =
    let inside : leb (max_size size rb.chunks) 0 ≡ false = (ground (arith, len)) in rw inside refl

-- A seek to the start of a buffer that holds something.
pub seek_start_lem :
    (size : ℕ) (rb : RequestBuffer)
    → IsPacked size rb.chunks
    → rb.closed ≡ false
    → 0 < length (contents rb.chunks)
    → seek size 0 seek_start rb ≡ ok (rb.pos, record rb { pos = 0 })
unfolding seek
seek_start_lem size rb packed open_ some_bytes =
    ap (λ c. if c then err closed_buffer else seek_data size 0 seek_start rb rb.chunks) open_
    ∙ seek_data_start size rb rb.chunks some_bytes (max_size_lem size rb.chunks packed)

-- A read of everything from the start.
pub read_whole :
    (size : ℕ) (rb : RequestBuffer)
    → 0 < size
    → IsPacked size rb.chunks
    → rb.closed ≡ false
    → rb.pos ≡ 0
    → 0 < length (contents rb.chunks)
    → read size (request_len size rb) rb
      ≡ ok (contents rb.chunks, record rb { pos = length (contents rb.chunks) })
read_whole size rb posi packed open_ start some_bytes =
    let len = max_size_lem size rb.chunks packed in
    let s = contents rb.chunks in
    let all : take (request_len size rb) (drop rb.pos s) ≡ s =
      (rw start (take_all (max_size size rb.chunks) s (omega (arith, len)))) in
    elim (read_lem size (request_len size rb) rb posi packed open_) [
      | inl (_, done) ↦
          let end : rb.pos + length s ≡ length s = (omega arith) in done ∙ rw (all, end) refl
      | inr (le, _) ↦ absurd (omega arith)
    ]
