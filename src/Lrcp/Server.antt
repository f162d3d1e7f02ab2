-- ===== src/Lrcp/Server.antt =====
-- 7-line-reversal/lrcp/server.go, the session manager of session.go, and the handler of main.go. A
-- datagram is one step. The routine that wakes the sender is modelled in `Sender`.
pub mod Sessions
pub mod Isolation
pub mod TooLong
use protohackers.Prelude.{
  ℕ, ◌+◌, Bool, true, false, ◌&&◌, List, [], ◌∷◌, ◌++◌, Option, none, some, Result, ok, err, Bytes,
  reverse, ◌==◌, if◌then◌else◌, take,
}
use protohackers.Prelude.Int.{ℤ, pos, negsuc, pos_part, neg_part}
use protohackers.Lrcp.Message.{
  Message, Error, unknown, connect, data_, ack, close, session_number, marshal, unmarshal_message,
  mtu,
}
use protohackers.Lrcp.Session.{
  Session, new_session, Outcome, done, panic, Effect, dispatch, signal_ack, remove, handle_incoming,
  newline, max_line_length,
}

abbrev pub eq_ℤ : ℤ → ℤ → Bool
eq_ℤ a b = (pos_part a == pos_part b) && (neg_part a == neg_part b)

-- `sessions map[int32]*sessionUDP`
pub record Manager : Type 0 where
  pub sessions : ℤ → Option Session

abbrev pub empty_manager : Manager
empty_manager = record { sessions = λ n. none }

unfoldable pub put : ℤ → Option Session → Manager → Manager
put n o m = record { sessions = λ k. if eq_ℤ k n then o else m.sessions k }

-- `GetOrCreate`
abbrev pub or_new : ℤ → Option Session → Session
or_new n none = new_session n
or_new n (some s) = s

-- The datagram that `dispatcher` writes; a message that does not marshal is dropped.
abbrev pub written : Result Error Bytes → List Bytes
written (ok b) = b ∷ []
written (err e) = []

unfoldable pub dispatcher : Message → List Bytes
dispatcher m = written (marshal m)

-- The effects of a step on the manager, and the datagrams to the client.
unfoldable pub perform : ℤ → List Effect → Manager → Manager × List Bytes
perform n [] m = (m, [])
perform n (dispatch msg ∷ es) m = let (m', out) = perform n es m in (m', dispatcher msg ++ out)
perform n (signal_ack len ∷ es) m = perform n es m
perform n (remove ∷ es) m = perform n es (put n none m)

-- `none` is a panic, which stops the server.
abbrev pub conclude : ℤ → Manager → Outcome → Option (Manager × List Bytes)
conclude n m (done s es) = some (perform n es (put n (some s) m))
conclude n m panic = none

abbrev pub with_session : Message → Manager → Option Session → Option (Manager × List Bytes)
with_session msg m none = some (m, dispatcher (close (session_number msg)))
with_session msg m (some s) = conclude (session_number msg) m (handle_incoming msg s)

unfoldable pub handle_incoming_message : Message → Manager → Option (Manager × List Bytes)
handle_incoming_message (connect n) m =
    conclude n m (handle_incoming (connect n) (or_new n (m.sessions n)))
handle_incoming_message msg m = with_session msg m (m.sessions (session_number msg))

-- What `Listen` does with a datagram: it is cut to the buffer, and dropped if it does not parse.
abbrev pub on_parsed : Result Error Message → Manager → Option (Manager × List Bytes)
on_parsed (ok msg) m = handle_incoming_message msg m
on_parsed (err e) m = some (m, [])

unfoldable pub receive : Bytes → Manager → Option (Manager × List Bytes)
receive datagram m = on_parsed (unmarshal_message (take mtu datagram)) m

-- The handler of main.go: it reads a line of at most `MaxLineLength` bytes, and writes its bytes from
-- the last to the first. An empty line is an error of the reader, and nothing is written.
unfoldable pub handler : Bytes → Bytes
handler line = reverse (take max_line_length line)
