-- ===== src/Lrcp/Delivery/Segments.antt =====
-- 7-line-reversal/lrcp/session.go: the end that receives the messages of a round.
use protohackers.Prelude.{
  ℕ, ◌+◌, ◌≤◌, ◌<◌, ◌^◌, ◌≡◌, ◌≢◌, refl, sym, ap, ◌∙◌, subst, List, [], ◌∷◌, ◌++◌, append_assoc,
  some, Bytes, length, take, ltb, leb, arith, Bool-cases, inl, inr, length-append, take_all, ◌&&◌,
}
use protohackers.Prelude.Int.{ℤ, pos}
use protohackers.Lrcp.Message.{Message, ack}
use protohackers.Lrcp.Session.{Session, Effect, done, dispatch, handle_data, handle_incoming}
use protohackers.Lrcp.Session.Stream.{FitsFrom}
use protohackers.Lrcp.Session.Received.{Received, grown, handle_data-Received}
use protohackers.Lrcp.Sender.Burst.{Carried}
use protohackers.Lrcp.Delivery.{dispatched, answered, after_step, receive, AreAcks}

receive_next :
    (m : Message) (ms : List Message) (s : Session) {s' s'' : Session} {es : List Effect}
    {acks : List Message}
    → handle_incoming m s ≡ done s' es
    → receive ms s' ≡ some (s'', acks)
    → receive (m ∷ ms) s ≡ some (s'', dispatched es ++ acks)
receive_next m ms s {es = es} step run = ap (after_step (receive ms)) step ∙ ap (answered es) run

-- What a segment leaves received, between the end of the segment and that of the stream.
grown_lem :
    (before part rest : Bytes) (got : ℕ) {total : ℕ}
    → length before ≤ got
    → got ≤ total
    → length (before ++ (part ++ rest)) ≡ total
    → (length before + length part ≤ grown got before part)
      × (got ≤ grown got before part)
      × (grown got before part ≤ total)
grown_lem before part rest got lo hi e =
    let sizes = length-append before (part ++ rest) in
    let sizes' = length-append part rest in
    elim (Bool-cases (leb (length before) got && ltb got (length before + length part))) [
      | inl new ↦ rw new (omega arith, ground arith, omega arith)
      | inr old ↦ rw old (ground arith, omega arith, omega arith)
    ]

module _ (stream : Bytes) (short : length stream < 2 ^ 31) (fits : FitsFrom 0 stream) where
  segment_lem :
      (before part rest : Bytes) (got : ℕ) (s : Session)
      → before ++ (part ++ rest) ≡ stream
      → got ≤ length stream
      → Received (take got stream) s
      → (s' : Session) × (handle_data (pos (length before)) part s
          ≡ done s' (dispatch (ack s.number (pos (grown got before part))) ∷ []))
        × Received (take (grown got before part) stream) s'
        × (s'.number ≡ s.number)
  segment_lem before part rest got s e le r =
      subst
        (λ (w : Bytes).
          (s' : Session) × (handle_data (pos (length before)) part s
            ≡ done s' (dispatch (ack s.number (pos (grown got before part))) ∷ []))
          × Received (take (grown got before part) w) s'
          × (s'.number ≡ s.number))
        e (handle_data-Received before part rest got s (rw e short) (rw e fits) (rw e le) (rw e r))

  pub receive_lem :
      (n : ℤ) (ms : List Message) (before d : Bytes) (got : ℕ) (s : Session)
      → before ++ d ≡ stream
      → Carried n (length before) ms d
      → length before ≤ got
      → got ≤ length stream
      → Received (take got stream) s
      → (s' : Session) × (acks : List Message) × (receive ms s ≡ some (s', acks))
        × Received stream s'
        × (AreAcks s.number got (length stream) acks)
        × (ms ≢ [] → acks ≢ [])
  unfolding handle_incoming
  receive_lem n [] before d got s e nothing lo hi r =
      let all : got ≡ length stream =
        (omega
          (arith, ap (length {A = ℕ}) e, length-append before d, ap (length {A = ℕ}) nothing)) in
      (s, [], refl, rw (← take_all got stream (omega arith)) r, all, λ h. absurd (h refl))
  receive_lem n (m ∷ ms) before d got s e (part, rest, em, ed, nonempty, size, more) lo hi r =
      let got1 = grown got before part in
      let e0 : before ++ (part ++ rest) ≡ stream = (ap (λ (x : Bytes). before ++ x) (sym ed) ∙ e) in
      let e1 : (before ++ part) ++ rest ≡ stream = (append_assoc before part rest ∙ e0) in
      let (s1, step, r1, num) = segment_lem before part rest got s e0 hi r in
      let (lo1, grows, hi1) = grown_lem before part rest got lo hi (ap (length {A = ℕ}) e0) in
      let at : length before + length part ≡ length (before ++ part) =
        (sym (length-append before part)) in
      let (s2, acks, run, r2, are, some_acks) =
        receive_lem n ms (before ++ part) rest got1 s1 e1
          (subst (λ (k : ℕ). Carried n k ms rest) at more) (omega (arith, at, lo1)) hi1 r1 in
      (
        s2,
        ack s.number (pos got1) ∷ acks,
        receive_next m ms s (ap (λ (x : Message). handle_incoming x s) em ∙ step) run,
        r2,
        (got1, refl, grows, hi1, subst (λ (k : ℤ). AreAcks k got1 (length stream) acks) num are),
        λ h. λ none_sent. cc,
      )
