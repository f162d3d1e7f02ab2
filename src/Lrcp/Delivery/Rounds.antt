-- ===== src/Lrcp/Delivery/Rounds.antt =====
-- 7-line-reversal/lrcp/session.go: a round that arrives, with its answers, finishes the line.
use protohackers.Prelude.{
  ℕ, ◌+◌, ◌-◌, ◌≤◌, ◌<◌, ◌^◌, ◌≡◌, ◌≢◌, ap, ◌∙◌, subst, true, List, [], ◌∷◌, ◌++◌, append_assoc,
  some, Bytes, length, take, drop, arith, length-append, length-take, length-drop, take-append-drop,
}
use protohackers.Prelude.Int.{ℤ, pos, IsInt32}
use protohackers.Lrcp.Message.{Message}
use protohackers.Lrcp.Session.{Session}
use protohackers.Lrcp.Session.Stream.{FitsFrom}
use protohackers.Lrcp.Session.Received.{Received}
use protohackers.Lrcp.Sender.{Sending, round, is_finished}
use protohackers.Lrcp.Sender.Burst.{Carried, round-Carried}
use protohackers.Lrcp.Delivery.{receive, acknowledge}
use protohackers.Lrcp.Delivery.Segments.{receive_lem}
use protohackers.Lrcp.Delivery.Acks.{IsSending, acks_handled, finished}

round_is_sent :
    (n : ℤ) (t : Sending) (p : ℕ) (d : Bytes) (ms : List Message)
    → Carried n p ms d
    → 0 < length d
    → ms ≢ []
round_is_sent n t p d [] nothing some_left = absurd (omega (arith, ap (length {A = ℕ}) nothing))
round_is_sent n t p d (m ∷ ms) carried some_left = λ h. cc

-- A session's sender has a part of a line acknowledged, not all of it, and the other end has received at
-- least as much, and no more than the line: if the messages of one round arrive, and what they are
-- answered with arrives, then the other end has received the whole line, the sender's line is finished,
-- and the sender's session has the whole of it acknowledged; whatever was lost before.
pub round_delivers :
    (n : ℤ) (a b : Session) (t : Sending) (sent : Bytes) (acked got : ℕ)
    → IsInt32 n
    → IsSending (length sent) (length (sent ++ t.buf)) acked a t
    → acked < length (sent ++ t.buf)
    → length (sent ++ t.buf) < 2 ^ 31
    → FitsFrom 0 (sent ++ t.buf)
    → acked ≤ got
    → got ≤ length (sent ++ t.buf)
    → Received (take got (sent ++ t.buf)) b
    → (b' : Session) × (acks : List Message) × (a' : Session) × (t' : Sending) × (receive
          (round n t)
          b
        ≡ some (b', acks))
      × Received (sent ++ t.buf) b'
      × (acknowledge n acks a t ≡ some (a', t'))
      × (is_finished t' ≡ true)
      × (a'.len_total_outgoing ≡ pos (length (sent ++ t.buf)))
round_delivers n a b t sent acked got hn sending left short fits lo hi r =
    let cur = acked - length sent in
    let sizes = length-append sent t.buf in
    let before = sent ++ take cur t.buf in
    let d = drop cur t.buf in
    let place : length sent + cur ≡ length before =
      (omega (arith, length-append sent (take cur t.buf), length-take cur t.buf, sending.above)) in
    let e : before ++ d ≡ sent ++ t.buf =
      (append_assoc sent (take cur t.buf) d
        ∙ ap (λ (x : Bytes). sent ++ x) (take-append-drop cur t.buf)) in
    let carried : Carried n (length before) (round n t) d =
      (subst (λ (p : ℕ). Carried n p (round n t) d) place
        (round-Carried n t (length sent) cur hn sending.begun sending.current (omega arith)
          (omega arith))) in
    let (b', acks, run, received, are, some_acks) =
      receive_lem (sent ++ t.buf) short fits n (round n t) before d got b e carried
        (omega (arith, sending.above)) hi r in
    let nonempty : round n t ≢ [] =
      round_is_sent n t (length before) d (round n t) carried
        (omega (arith, length-drop cur t.buf, sending.above)) in
    let (a', t', handled, sending') =
      acks_handled n b.number acks got (length sent) (length (sent ++ t.buf)) acked a t sending
        short are (λ none_sent. absurd (some_acks nonempty none_sent)) in
    (
      b',
      acks,
      a',
      t',
      run,
      received,
      handled,
      finished (length sent) (length (sent ++ t.buf)) a' t' sending',
      sending'.outgoing,
    )
