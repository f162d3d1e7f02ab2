-- ===== src/Lrcp/Session/Received.antt =====
-- 7-line-reversal/lrcp/session.go: whatever datagrams arrive, a session has received a beginning of
-- the stream of its client, and has passed on the lines of that.
use protohackers.Prelude.{
  ◌&&◌, All, take-length-append, ℕ, zero, suc, ◌+◌, ◌-◌, ◌≤◌, ◌<◌, ◌^◌, ◌≡◌, refl, sym, ap, ◌∙◌,
  List, [], ◌∷◌, ◌++◌, append_assoc, Option, none, some, Bytes, length, take, drop, ltb, leb,
  if◌then◌else◌, arith, Bool-cases, inl, inr, length-append, length-take, length-drop,
  take-append-drop,
}
use protohackers.Prelude.Int.{pos, ◌+ℤ◌, ◌-ℤ◌, wrap32}
use protohackers.Lrcp.Message.{ack}
use protohackers.Lrcp.Session.{
  Session, Outcome, done, dispatch, contents, read_new_line_from_message, handle_data, take_new,
  panic,
}
use protohackers.Lrcp.Session.Stream.{
  lines_from, lines_from-append, FitsFrom, FitsFrom-append, read_lines_lem,
}

-- The session has received `got` and nothing else.
pub record Received (got : Bytes) (s : Session) : Type 0 where
  pub counted : s.len_total_incoming ≡ pos (length got)
  pub passed_on : s.incoming_chan ≡ (lines_from [] got).0
  pub kept : contents s.incoming_buf ≡ (lines_from [] got).1

-- Reading on: the loop on the new data, behind what was received.
pub read_on :
    (got new : Bytes) (s : Session)
    → s.incoming_chan ≡ (lines_from [] got).0
    → contents s.incoming_buf ≡ (lines_from [] got).1
    → FitsFrom 0 (got ++ new)
    → (s' : Session) × (read_new_line_from_message new s ≡ some s')
      × (s'.incoming_chan ≡ (lines_from [] (got ++ new)).0)
      × (contents s'.incoming_buf ≡ (lines_from [] (got ++ new)).1)
      × (s'.len_total_incoming ≡ s.len_total_incoming)
      × (s'.number ≡ s.number)
unfolding read_new_line_from_message
read_on got new s passed kept fits =
    let fits' : FitsFrom (length (contents s.incoming_buf)) new =
      (rw kept ((FitsFrom-append [] got new fits).0)) in
    let (buf', e1, e2) =
      read_lines_lem (length new) s.incoming_buf s.incoming_chan new (omega arith) fits' in
    let all = lines_from-append [] got new in
    (
      record s {
        incoming_buf = buf';
        incoming_chan = s.incoming_chan ++ (lines_from (contents s.incoming_buf) new).0;
      },
      rw e1 refl,
      rw (all, passed, kept) refl,
      rw all (e2 ∙ ap (λ (t : Bytes). (lines_from t new).1) kept),
      refl,
      refl,
    )

take-append_le : (k : ℕ) (d after : Bytes) → k ≤ length d → take k (d ++ after) ≡ take k d
take-append_le zero d after h = refl
take-append_le (suc k) [] after h = absurd (omega arith)
take-append_le (suc k) (x ∷ d) after h =
    ap (λ (t : Bytes). x ∷ t) (take-append_le k d after (omega arith))

-- The stream up to a place inside a segment, and the rest of the segment.
take_in_segment :
    (before d after : Bytes) (k : ℕ)
    → length before ≤ k
    → k ≤ length before + length d
    → take k (before ++ (d ++ after)) ++ drop (k - length before) d ≡ before ++ d
take_in_segment [] d after k lo hi =
    let e : k - 0 ≡ k = (omega arith) in
    rw (e, take-append_le k d after (omega arith)) (take-append-drop k d)
take_in_segment (x ∷ before) d after zero lo hi = absurd (omega arith)
take_in_segment (x ∷ before) d after (suc k) lo hi =
    let e : suc k - suc (length before) ≡ k - length before = (omega arith) in
    rw e (ap (λ (t : Bytes). x ∷ t) (take_in_segment before d after k (omega arith) (omega arith)))

-- The stream up to the end of a segment.
take_segment :
    (before d after : Bytes)
    → take (length before + length d) (before ++ (d ++ after)) ≡ before ++ d
take_segment before d after =
    let e = length-append before d in
    rw (← e, ← append_assoc before d after) (take-length-append (before ++ d) after)

-- What the client's datagram with the bytes `d` behind `before` leaves received, of a stream of which
-- `got` bytes were.
abbrev pub grown : ℕ → Bytes → Bytes → ℕ
grown got before d =
    if leb (length before) got && ltb got (length before + length d)
    then length before + length d
    else got

module _ (before d after : Bytes) (got : ℕ) (s : Session) where
  abbrev whole_stream : Bytes
  whole_stream = before ++ (d ++ after)

  handle_data_at :
      length whole_stream < 2 ^ 31
      → got ≤ length whole_stream
      → s.len_total_incoming ≡ pos got
      → handle_data (pos (length before)) d s ≡ (
          if leb (length before) got && ltb got (length before + length d)
          then take_new (pos (got - length before)) d s
          else done s (dispatch (ack s.number s.len_total_incoming) ∷ []))
  unfolding handle_data ◌-ℤ◌ wrap32
  handle_data_at short le e =
      ground (arith, length-append before (d ++ after), length-append d after)

  added :
      (n : ℕ)
      → s.len_total_incoming ≡ pos got
      → got + n ≡ length before + length d
      → length before + length d < 2 ^ 31
      → wrap32 (s.len_total_incoming +ℤ pos n) ≡ pos (length before + length d)
  unfolding wrap32 ◌+ℤ◌
  added n e e' short = ground arith

  take_new-Received :
      length whole_stream < 2 ^ 31
      → FitsFrom 0 whole_stream
      → length before ≤ got
      → got < length before + length d
      → Received (take got whole_stream) s
      → (s' : Session) × (take_new (pos (got - length before)) d s
          ≡ done s' (dispatch (ack s.number (pos (length before + length d))) ∷ []))
        × Received (take (length before + length d) whole_stream) s'
        × (s'.number ≡ s.number)
  take_new-Received short fits lo hi r =
      let new = drop (got - length before) d in
      let whole = take_in_segment before d after got lo (omega arith) in
      let end = length before + length d in
      let fits' : FitsFrom 0 (take got whole_stream ++ new) =
        (rw whole ((FitsFrom-append [] (before ++ d) after (rw append_assoc fits)).1)) in
      let len : wrap32 (s.len_total_incoming +ℤ pos (length new)) ≡ pos end =
        added (length new)
          (r.counted
            ∙ ap pos (
                omega (
                  arith,
                  length-take got whole_stream,
                  length-append before (d ++ after),
                  length-append d after,
                )))
          (omega (arith, length-drop (got - length before) d))
          (omega (arith, length-append before (d ++ after), length-append d after)) in
      let (s', e, passed, kept, len', num) =
        read_on (take got whole_stream) new
          (record s { len_total_incoming = wrap32 (s.len_total_incoming +ℤ pos (length new)) })
          r.passed_on r.kept fits' in
      (
        s',
        rw (e, num, len', len) refl,
        rw (take_segment before d after) (record {
          counted = len' ∙ len ∙ ap pos (sym (length-append before d));
          passed_on = rw (← whole) passed;
          kept = rw (← whole) kept;
        }),
        num,
      )

-- A session that has received a beginning of its client's stream, and gets any segment of that
-- stream, has received a beginning afterwards: up to the end of the segment if the segment leaves no
-- gap and brings something new, and else the same. It answers with the new length.
pub handle_data-Received :
    (before d after : Bytes) (got : ℕ) (s : Session)
    → let stream = before ++ (d ++ after) in
      length stream < 2 ^ 31
      → FitsFrom 0 stream
      → got ≤ length stream
      → Received (take got stream) s
      → (s' : Session) × (handle_data (pos (length before)) d s
          ≡ done s' (dispatch (ack s.number (pos (grown got before d))) ∷ []))
        × Received (take (grown got before d) stream) s'
        × (s'.number ≡ s.number)
handle_data-Received before d after got s short fits le r =
    let counted : s.len_total_incoming ≡ pos got =
      (r.counted ∙ ap pos (omega (arith, length-take got (before ++ (d ++ after))))) in
    let at_once = handle_data_at before d after got s short le counted in
    elim (Bool-cases (leb (length before) got && ltb got (length before + length d))) [
      | inl e ↦
          rw (at_once, e)
            (take_new-Received before d after got s short fits (ground arith) (ground arith) r)
      | inr e ↦ rw (at_once, e) (s, rw counted refl, r, refl)
    ]

abbrev pub after_data : Outcome → Option Session
after_data (done s e) = some s
after_data panic = none

-- Datagrams, as the place of their data in the stream and its length, in the order of arrival.
pub deliver : Bytes → List (ℕ × ℕ) → Session → Option Session
deliver stream [] s = some s
deliver stream ((p, n) ∷ segments) s =
    let next = after_data (handle_data (pos p) (take n (drop p stream)) s) in
    elim next [ none ↦ none | some s' ↦ deliver stream segments s' ]

segment-Received :
    (stream : Bytes) (p n got : ℕ) (s : Session)
    → p ≤ length stream
    → length stream < 2 ^ 31
    → FitsFrom 0 stream
    → got ≤ length stream
    → Received (take got stream) s
    → (s' : Session) × (got' : ℕ) × (after_data (handle_data (pos p) (take n (drop p stream)) s)
        ≡ some s')
      × Received (take got' stream) s'
      × (got' ≤ length stream)
      × (got ≤ got')
      × (p ≤ got → p + length (take n (drop p stream)) ≤ got')
segment-Received stream p n got s in_range short fits le r =
    let before = take p stream in
    let d = take n (drop p stream) in
    let after = drop n (drop p stream) in
    let whole : before ++ (d ++ after) ≡ stream =
      (rw (take-append-drop n (drop p stream)) (take-append-drop p stream)) in
    let at_p : length before ≡ p = (omega (arith, length-take p stream)) in
    let (s', e, r', _) =
      handle_data-Received before d after got s (rw whole short) (rw whole fits) (rw whole le)
        (rw whole r) in
    (
      s',
      grown got before d,
      ap (λ (t : ℕ). after_data (handle_data (pos t) d s)) (sym at_p) ∙ ap after_data e,
      rw whole at r',
      ground (
        arith,
        ap (length {A = ℕ}) whole,
        length-append before (d ++ after),
        length-append d after,
      ),
      ground arith,
      λ h. ground arith,
    )

-- However the datagrams of a client cut its stream into segments, lose, repeat or reorder them, if
-- the stream is shorter than 2^31 bytes and its lines fit the buffer: no datagram makes the session
-- panic, and it ends with a beginning of the stream received, no shorter than before, and with the
-- lines of exactly that passed on to the handler.
pub deliver-Received :
    (stream : Bytes) (segments : List (ℕ × ℕ)) (got : ℕ) (s : Session)
    → length stream < 2 ^ 31
    → FitsFrom 0 stream
    → All (λ (g : ℕ × ℕ). g.0 ≤ length stream) segments
    → got ≤ length stream
    → Received (take got stream) s
    → (s' : Session) × (got' : ℕ) × (deliver stream segments s ≡ some s')
      × Received (take got' stream) s'
      × (got ≤ got')
      × (got' ≤ length stream)
unfolding deliver
deliver-Received stream [] got s short fits places le r = (s, got, refl, r, omega arith, le)
deliver-Received stream ((p, n) ∷ segments) got s short fits (place, places) le r =
    let (s1, got1, e1, r1, le1, mono1, _) =
      segment-Received stream p n got s place short fits le r in
    let (s2, got2, e2, r2, mono2, le2) =
      deliver-Received stream segments got1 s1 short fits places le1 r1 in
    (s2, got2, ground arith, r2, omega arith, le2)
