-- ===== src/Lrcp/Session.antt =====
-- 7-line-reversal/lrcp/session.go, the receiving side: `HandleIncoming` and
-- `readNewLineFromMessage`, each as one step of a session that is not cancelled meanwhile. The channel
-- to the handler is the list of the lines put into it, and never full. A slice out of range is a panic.
pub mod Stream
pub mod Received
pub mod Panics
pub mod Acks
use protohackers.Prelude.{
  ℕ, zero, suc, ◌+◌, Bool, true, false, List, [], ◌∷◌, ◌++◌, Option, none, some, Bytes, length,
  take, drop, ltb, leb, ◌==◌, if◌then◌else◌,
}
use protohackers.Prelude.Int.{ℤ, pos, negsuc, ◌+ℤ◌, ◌-ℤ◌, ltb_ℤ, leb_ℤ, wrap32}
use protohackers.Lrcp.Message.{Message, unknown, connect, data_, ack, close}

abbrev pub max_line_length : ℕ
max_line_length = 10000

abbrev pub newline : ℕ
newline = 10

pub record Session : Type 0 where
  pub number : ℤ
  pub len_total_incoming : ℤ
  pub len_total_outgoing : ℤ
  pub should_be_sent : ℤ
  pub incoming_buf : Option Bytes
  pub incoming_chan : List Bytes

abbrev pub new_session : ℤ → Session
new_session n = record {
  number = n;
  len_total_incoming = pos 0;
  len_total_outgoing = pos 0;
  should_be_sent = pos 0;
  incoming_buf = none;
  incoming_chan = [];
}

-- What a step does besides: it sends a datagram, wakes the sender, or takes the session out of the
-- manager, which cancels it.
pub data Effect : Type 0 where
  dispatch : Message → Effect
  signal_ack : ℤ → Effect
  remove : Effect

pub data Outcome : Type 0 where
  done : Session → List Effect → Outcome
  panic : Outcome

-- The bytes before the first newline, and whether there is one.
unfoldable pub find_newline : Bytes → ℕ × Bool
find_newline [] = (0, false)
find_newline (c ∷ d) =
    let (n, found) = find_newline d in if c == newline then (0, true) else (suc n, found)

abbrev pub contents : Option Bytes → Bytes
contents none = []
contents (some b) = b

-- The loop of `readNewLineFromMessage` over the data from `curPos` on, with the buffer of the session
-- and the lines put into the channel. Each round takes a byte at least.
unfoldable pub read_lines :
    ℕ → Option Bytes → List Bytes → Bytes → Option (Option Bytes × List Bytes)
read_lines zero buf lines data' = some (buf, lines)
read_lines (suc f) buf lines [] = some (buf, lines)
read_lines (suc f) buf lines (c ∷ d) =
    let (n, found) = find_newline (c ∷ d) in
    let line = contents buf ++ take n (c ∷ d) in
    let after_line = read_lines f none (lines ++ line ∷ []) (drop (n + 1) (c ∷ d)) in
    let after_all = read_lines f (some line) lines (drop n (c ∷ d)) in
    if ltb max_line_length (length line) then none else if found then after_line else after_all

abbrev pub store : Session → Option (Option Bytes × List Bytes) → Option Session
store s none = none
store s (some (buf, lines)) = some (record s { incoming_buf = buf; incoming_chan = lines })

unfoldable pub read_new_line_from_message : Bytes → Session → Option Session
read_new_line_from_message d s = store s (read_lines (length d) s.incoming_buf s.incoming_chan d)

abbrev pub acked : Option Session → Outcome
acked none = panic
acked (some s) = done s (dispatch (ack s.number s.len_total_incoming) ∷ [])

-- The new data behind the first `skip` bytes. A negative index panics.
abbrev pub take_new : ℤ → Bytes → Session → Outcome
take_new (negsuc k) d s = panic
take_new (pos skip) d s =
    let new = drop skip d in
    acked (
      read_new_line_from_message new
        (record s { len_total_incoming = wrap32 (s.len_total_incoming +ℤ pos (length new)) }))

unfoldable pub handle_data : ℤ → Bytes → Session → Outcome
handle_data p d s =
    let offset = wrap32 (s.len_total_incoming -ℤ p) in
    if ltb_ℤ s.len_total_incoming p
    then done s (dispatch (ack s.number s.len_total_incoming) ∷ [])
    else if leb_ℤ (pos (length d)) offset
    then done s (dispatch (ack s.number s.len_total_incoming) ∷ [])
    else take_new offset d s

unfoldable pub handle_ack : ℤ → Session → Outcome
handle_ack len s =
    if leb_ℤ len s.len_total_outgoing
    then done s []
    else if ltb_ℤ s.should_be_sent len
    then done s (remove ∷ dispatch (close s.number) ∷ [])
    else done (record s { len_total_outgoing = len }) (signal_ack len ∷ [])

unfoldable pub handle_incoming : Message → Session → Outcome
handle_incoming unknown s = done s []
handle_incoming (connect n) s = done s (dispatch (ack s.number s.len_total_incoming) ∷ [])
handle_incoming (data_ n p d) s = handle_data p d s
handle_incoming (ack n len) s = handle_ack len s
handle_incoming (close n) s = done s (remove ∷ dispatch (close s.number) ∷ [])
