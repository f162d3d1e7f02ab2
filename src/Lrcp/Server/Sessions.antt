-- ===== src/Lrcp/Server/Sessions.antt =====
-- 7-line-reversal/lrcp/server.go: sessions do not disturb one another.
use protohackers.Prelude.{
  ◌≡◌, ◌≢◌, refl, append-nil, ◌∙◌, true, List, [], ◌∷◌, Option, none, some, arith,
}
use protohackers.Prelude.Int.{ℤ, pos, negsuc}
use protohackers.Lrcp.Message.{Message, unknown, connect, data_, ack, close, session_number}
use protohackers.Lrcp.Session.{Session, Effect, dispatch, signal_ack, remove, handle_incoming}
use protohackers.Lrcp.Server.{
  Manager, eq_ℤ, put, or_new, dispatcher, perform, handle_incoming_message,
}

pub eq_ℤ-refl : (n : ℤ) → eq_ℤ n n ≡ true
eq_ℤ-refl n = ground arith

pub sessions-put_ne :
    (n k : ℤ) (o : Option Session) (m : Manager) → k ≢ n → (put n o m).sessions k ≡ m.sessions k
unfolding put
sessions-put_ne (pos a) (pos b) o m h = ground (arith)
sessions-put_ne (pos a) (negsuc b) o m h = ground (arith)
sessions-put_ne (negsuc a) (pos b) o m h = ground (arith)
sessions-put_ne (negsuc a) (negsuc b) o m h = ground (arith)

pub perform_ne :
    (n k : ℤ) (es : List Effect) (m : Manager)
    → k ≢ n
    → (perform n es m).0.sessions k ≡ m.sessions k
unfolding perform
perform_ne n k [] m h = refl
perform_ne n k (dispatch msg ∷ es) m h = perform_ne n k es m h
perform_ne n k (signal_ack len ∷ es) m h = perform_ne n k es m h
perform_ne n k (remove ∷ es) m h = perform_ne n k es (put n none m) h ∙ sessions-put_ne n k none m h

-- Anything but a connection, for a session that is not there, is answered with a close and changes
-- nothing.
pub no_session :
    (msg : Message) (m : Manager)
    → m.sessions (session_number msg) ≡ none
    → ((n : ℤ) → msg ≢ connect n)
    → handle_incoming_message msg m ≡ some (m, dispatcher (close (session_number msg)))
unfolding handle_incoming_message
no_session (connect n) m h c = absurd (c n refl)
no_session unknown m h c = rw h refl
no_session (data_ n p d) m h c = rw h refl
no_session (ack n l) m h c = rw h refl
no_session (close n) m h c = rw h refl

-- A connection opens the session if it is not there, with nothing received, and acknowledges what it has
-- received; and a close that comes next ends it, whatever it held.
pub connect_then_close :
    (n : ℤ) (m : Manager)
    → (m' : Manager) × (handle_incoming_message (connect n) m
        ≡ some (
          m',
          dispatcher
              (ack (or_new n (m.sessions n)).number (or_new n (m.sessions n)).len_total_incoming),
        ))
      × (m'.sessions n ≡ some (or_new n (m.sessions n)))
      × (m'' : Manager) × (handle_incoming_message (close n) m'
          ≡ some (m'', dispatcher (close (or_new n (m.sessions n)).number)))
      × (m''.sessions n ≡ none)
unfolding handle_incoming_message handle_incoming perform put
connect_then_close n m =
    let s = or_new n (m.sessions n) in
    let m1 = put n (some s) m in
    let m2 = put n none (put n (some s) m1) in
    (
      m1,
      rw append-nil refl,
      rw eq_ℤ-refl refl,
      m2,
      rw (eq_ℤ-refl, append-nil) refl,
      rw eq_ℤ-refl refl,
    )
