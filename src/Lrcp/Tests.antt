-- ===== src/Lrcp/Tests.antt =====
-- 7-line-reversal: the results at concrete messages and sessions.
use protohackers.Prelude.{
  ℕ, zero, suc, ap, ◌≡◌, ◌↔◌, ◌≤◌, refl, true, List, [], ◌∷◌, ◌++◌, Option, none, some, ok, Bytes,
  length, take, drop, codes, arith,
}
use protohackers.Prelude.Int.{pos, negsuc, wrap32, ◌-ℤ◌, ◌+ℤ◌}
use protohackers.Prelude.Decimal.{format_int, digits}
use protohackers.Lrcp.Message.{
  Message, connect, data_, close, marshal, marshal_size, unmarshal_message, escape, unescape_from,
  digits_of, escaped_length, pack_to_writer,
}
use protohackers.Lrcp.Message.RoundTrip.{unmarshal_message-marshal}
use protohackers.Lrcp.Message.RoundTrip.Escapes.{IsReadable, unescape-escape_iff}
use protohackers.Lrcp.Session.{
  Session, new_session, panic, handle_data, handle_incoming, read_lines, find_newline,
  read_new_line_from_message,
}
use protohackers.Lrcp.Session.Stream.{FitsFrom, lines_from}
use protohackers.Lrcp.Session.Received.{Received, deliver, deliver-Received}
use protohackers.Lrcp.Session.Panics.{negative_position_panics}
use protohackers.Lrcp.Sender.{Sending, ack_signal, wake, round, burst, is_finished}
use protohackers.Lrcp.Sender.Burst.{Carried, burst-Carried, wake-round}
use protohackers.Lrcp.Delivery.{receive, acknowledge}
use protohackers.Lrcp.Delivery.Acks.{IsSending}
use protohackers.Lrcp.Delivery.Rounds.{round_delivers}
use protohackers.Lrcp.Server.{
  Manager, empty_manager, put, perform, dispatcher, handle_incoming_message,
}
use protohackers.Lrcp.Server.TooLong.{next_data_panics_iff}
use protohackers.Lrcp.Server.Isolation.{Sent, handle_all, messages_of, sent_of, sessions_isolated}

abbrev hello : Message
hello = data_ (pos 12345) (pos 0) (codes "a/b")

abbrev hello_bytes : Bytes
hello_bytes = codes "/data/12345/0/a\\/b/"

hello-marshals : marshal hello ≡ ok hello_bytes
unfolding marshal marshal_size digits_of escaped_length pack_to_writer format_int digits escape
hello-marshals = ground arith

unmarshal_message-marshal_example : unmarshal_message hello_bytes ≡ ok hello
unmarshal_message-marshal_example =
    unmarshal_message-marshal hello hello_bytes (ground arith) (ground arith) hello-marshals

unescape-escape_iff_example :
    (unescape_from none (escape (codes "a/b")) ≡ codes "a/b") ↔ IsReadable none (codes "a/b")
unescape-escape_iff_example = unescape-escape_iff (codes "a/b")

abbrev chat : Bytes
chat = codes "hi\nyou\n"

chat-fits : FitsFrom 0 chat
unfolding FitsFrom
chat-fits = ground arith

nothing-Received : Received (take 0 chat) (new_session (pos 7))
unfolding lines_from
nothing-Received = record { counted = refl; passed_on = refl; kept = refl }

-- The third segment arrives before the second, and the first twice.
abbrev arrivals : List (ℕ × ℕ)
arrivals = (0, 3) ∷ (5, 2) ∷ (0, 3) ∷ (3, 4) ∷ []

deliver-Received_example :
    (s' : Session) × (got' : ℕ) × (deliver chat arrivals (new_session (pos 7)) ≡ some s')
    × Received (take got' chat) s'
    × (0 ≤ got')
    × (got' ≤ length chat)
deliver-Received_example =
    deliver-Received chat arrivals 0 (new_session (pos 7)) (omega arith) chat-fits (ground arith)
      (omega arith) nothing-Received

abbrev ten_received : Session
ten_received = record (new_session (pos 7)) { len_total_incoming = pos 10; should_be_sent = pos 20 }

negative_position_panics_example : handle_data (negsuc 2147483640) (codes "x") ten_received ≡ panic
negative_position_panics_example =
    negative_position_panics ten_received 10 2147483640 (codes "x") refl (omega arith) (omega arith)
      (omega arith)

burst-Carried_example : Carried (pos 7) 4 (burst 3 (pos 7) (pos 4) (codes "abc")) (codes "abc")
burst-Carried_example =
    burst-Carried 3 (pos 7) 4 (codes "abc") (ground arith) (omega arith) (omega arith)

abbrev sending_line : Sending
sending_line = record { buf = codes "abc\n"; init_len = pos 10; cur_pos = pos 0 }

wake-round_example :
    Carried
      (pos 7)
      12
      (round (pos 7) (wake (pos 7) (ack_signal (pos 12)) sending_line).0)
      (drop 2 (codes "abc\n"))
    × ((is_finished (wake (pos 7) (ack_signal (pos 12)) sending_line).0 ≡ true)
        ↔ (◌≡◌ {A = ℕ} 12 14))
wake-round_example =
    wake-round (pos 7) sending_line 10 12 (ground arith) refl (omega arith) (omega arith)
      (omega arith)

-- Behind "hi" the line "you" is sent; a byte of it was acknowledged before, and the other end has two.
abbrev you_line : Sending
you_line = record { buf = codes "you\n"; init_len = pos 3; cur_pos = pos 1 }

abbrev sending_you : Session
sending_you = record (new_session (pos 7)) { len_total_outgoing = pos 4; should_be_sent = pos 7 }

you_line-IsSending : IsSending 3 7 4 sending_you you_line
you_line-IsSending = record {
  outgoing = refl;
  should = refl;
  begun = refl;
  current = refl;
  whole = refl;
  above = omega arith;
  below = omega arith;
}

abbrev got_five : Session
got_five = record (new_session (pos 7)) {
  len_total_incoming = pos 5;
  incoming_chan = codes "hi" ∷ [];
  incoming_buf = some (codes "yo");
}

five-Received : Received (take 5 chat) got_five
unfolding lines_from
five-Received = record { counted = refl; passed_on = refl; kept = refl }

round_delivers_example :
    (b' : Session) × (acks : List Message) × (a' : Session) × (t' : Sending) × (receive
        (round (pos 7) you_line)
        got_five
      ≡ some (b', acks))
    × Received chat b'
    × (acknowledge (pos 7) acks sending_you you_line ≡ some (a', t'))
    × (is_finished t' ≡ true)
    × (a'.len_total_outgoing ≡ pos 7)
round_delivers_example =
    round_delivers (pos 7) sending_you got_five you_line (codes "hi\n") 4 5 (ground arith)
      you_line-IsSending (omega arith) (omega arith) chat-fits (omega arith) (omega arith)
      five-Received

-- Two sessions at once, the second closed before the data for the first arrives.
abbrev both : List Message
both = connect (pos 7) ∷ connect (pos 8) ∷ close (pos 8) ∷ data_ (pos 7) (pos 0) (codes "hi\n") ∷ []

abbrev or_empty : Option (Manager × Sent) → Manager × Sent
or_empty none = (empty_manager, [])
or_empty (some x) = x

abbrev after_both : Manager
after_both = (or_empty (handle_all both empty_manager)).0

abbrev sent_to_both : Sent
sent_to_both =
    (pos 7, codes "/ack/7/0/" ∷ [])
    ∷ (pos 8, codes "/ack/8/0/" ∷ [])
    ∷ (pos 8, codes "/close/8/" ∷ [])
    ∷ (pos 7, codes "/ack/7/3/" ∷ [])
    ∷ []

both_get_through : handle_all both empty_manager ≡ some (after_both, sent_to_both)
unfolding handle_incoming_message handle_incoming handle_data read_new_line_from_message read_lines
    find_newline perform put dispatcher marshal marshal_size digits_of escaped_length pack_to_writer
    format_int digits escape wrap32 ◌-ℤ◌ ◌+ℤ◌
both_get_through = refl

sessions_isolated_example :
    (m'' : Manager) × (handle_all (messages_of (pos 7) both) empty_manager
      ≡ some (m'', sent_of (pos 7) sent_to_both))
    × (m''.sessions (pos 7) ≡ after_both.sessions (pos 7))
sessions_isolated_example =
    sessions_isolated (pos 7) both empty_manager after_both sent_to_both both_get_through

abbrev repeated : ℕ → Bytes
repeated zero = []
repeated (suc n) = b'x' ∷ repeated n

length-repeated : (n : ℕ) → length (repeated n) ≡ n
length-repeated zero = refl
length-repeated (suc n) = ap suc (length-repeated n)

-- Behind "hi", a newline and "yo", 9999 bytes without a newline: a line of 10001 bytes.
abbrev too_long : Bytes
too_long = repeated 9999

abbrev reading : Manager
reading = put (pos 7) (some got_five) empty_manager

five-fits : FitsFrom 0 (take 5 chat)
unfolding FitsFrom
five-fits = ground arith

next_data_panics_iff_example :
    (handle_incoming_message (data_ (pos 7) (pos 5) too_long) reading ≡ none)
    ↔ (¬ FitsFrom 0 (take 5 chat ++ too_long))
unfolding put
next_data_panics_iff_example =
    next_data_panics_iff (pos 7) (take 5 chat) too_long got_five reading refl five-Received
      five-fits (omega (arith, length-repeated 9999)) (omega (arith, length-repeated 9999))
