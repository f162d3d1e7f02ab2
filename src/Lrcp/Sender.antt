-- ===== src/Lrcp/Sender.antt =====
-- 7-line-reversal/lrcp/session.go, the sending side: the routine over `outgoingChan`, which sends one
-- line at a time, and again what is not acknowledged. `Sending` holds its variables.
pub mod Burst
use protohackers.Prelude.{
  ℕ, zero, suc, ◌+◌, ◌*◌, ◌/◌, min, Bool, List, [], ◌∷◌, ◌++◌, Bytes, length, take, drop, ltb,
  if◌then◌else◌,
}
use protohackers.Prelude.Int.{ℤ, pos, negsuc, ◌+ℤ◌, ◌-ℤ◌, pos_part, leb_ℤ, wrap32}
use protohackers.Lrcp.Message.{Message, data_, close, mtu, marshal_size}
use protohackers.Lrcp.Session.{Session, Effect, dispatch, remove, newline}

-- The inner loop: the data is cut by a tenth until its message fits. Each round makes it shorter, so its
-- length is fuel enough.
unfoldable pub slice_packet : ℕ → ℤ → ℤ → Bytes → Bytes
slice_packet zero n p d = d
slice_packet (suc f) n p d =
    let again = slice_packet f n p (take (min mtu (length d * 9 / 10)) d) in
    if ltb mtu (marshal_size (data_ n p d)) then again else d

-- The loop over `burstPos`, with the position and the data that are left.
unfoldable pub burst : ℕ → ℤ → ℤ → Bytes → List Message
burst zero n p d = []
burst (suc f) n p [] = []
burst (suc f) n p (c ∷ d) =
    let part = slice_packet (length (c ∷ d)) n (wrap32 p) (c ∷ d) in
    let later = burst f n (p +ℤ pos (length part)) (drop (length part) (c ∷ d)) in
    data_ n (wrap32 p) part ∷ later

pub record Sending : Type 0 where
  pub buf : Bytes
  pub init_len : ℤ
  pub cur_pos : ℤ

-- The start of a line: the routine takes over `lenTotalOutgoing`, and says how far it will send.
unfoldable pub begin_line : Bytes → Session → Session × Sending
begin_line out s =
    let buf = out ++ newline ∷ [] in
    (
      record s { should_be_sent = wrap32 (s.len_total_outgoing +ℤ pos (length buf)) },
      record { buf = buf; init_len = s.len_total_outgoing; cur_pos = pos 0 },
    )

unfoldable pub is_finished : Sending → Bool
is_finished t = leb_ℤ (pos (length t.buf)) t.cur_pos

-- One round of the outer loop, up to the wait.
unfoldable pub round : ℤ → Sending → List Message
round n t =
    let rest = drop (pos_part t.cur_pos) t.buf in
    if is_finished t then [] else burst (length rest) n (t.init_len +ℤ t.cur_pos) rest

-- What ends the wait. After `retransmit` the next round sends the same again.
pub data Wake : Type 0 where
  ack_signal : ℤ → Wake
  retransmit session_timeout : Wake

-- On the timeout of the session, `close` takes it out of the manager and waits there for the routines of
-- the session, of which this is one: it stays there, and the close message is never sent.
unfoldable pub wake : ℤ → Wake → Sending → Sending × List Effect
wake n (ack_signal ack_len) t = (record t { cur_pos = wrap32 (ack_len -ℤ t.init_len) }, [])
wake n retransmit t = (t, [])
wake n session_timeout t = (t, remove ∷ [])
