-- ===== src/Lrcp/Server/Isolation.antt =====
-- 7-line-reversal/lrcp/server.go: what a session sees of the messages for the others.
use protohackers.Prelude.{
  ◌≡◌, ◌≢◌, ◌∙◌, refl, sym, ap, subst, inl, inr, Bool-cases, true, false, List, [], ◌∷◌, ◌++◌,
  Option, none, some, Bytes, arith, if◌then◌else◌,
}
use protohackers.Prelude.Int.{ℤ, pos, negsuc}
use protohackers.Lrcp.Message.{Message, unknown, connect, data_, ack, close, session_number}
use protohackers.Lrcp.Session.{
  Session, Outcome, done, panic, Effect, dispatch, signal_ack, remove, handle_incoming,
}
use protohackers.Lrcp.Server.{
  Manager, eq_ℤ, put, or_new, dispatcher, perform, conclude, with_session, handle_incoming_message,
}
use protohackers.Lrcp.Server.Sessions.{eq_ℤ-refl, sessions-put_ne, perform_ne}

abbrev pub Sent : Type 0
Sent = List (ℤ × List Bytes)

abbrev pub sent_before : ℤ → List Bytes → Option (Manager × Sent) → Option (Manager × Sent)
sent_before n out none = none
sent_before n out (some (m, sent)) = some (m, (n, out) ∷ sent)

abbrev pub after_message :
    ℤ
    → (Manager → Option (Manager × Sent))
    → Option (Manager × List Bytes)
    → Option (Manager × Sent)
after_message n next none = none
after_message n next (some (m, out)) = sent_before n out (next m)

-- The messages arrive one after the other: the manager after them, and the datagrams that are sent for each,
-- with its session number; none if the server panics.
abbrev pub handle_all : List Message → Manager → Option (Manager × Sent)
handle_all [] m = some (m, [])
handle_all (msg ∷ msgs) m =
    after_message (session_number msg) (λ m'. handle_all msgs m') (handle_incoming_message msg m)

-- The messages for one session, and the datagrams that are sent for those.
abbrev pub messages_of : ℤ → List Message → List Message
messages_of n [] = []
messages_of n (msg ∷ msgs) =
    let rest = messages_of n msgs in if eq_ℤ (session_number msg) n then msg ∷ rest else rest

abbrev pub sent_of : ℤ → Sent → Sent
sent_of n [] = []
sent_of n ((k, out) ∷ sent) =
    let rest = sent_of n sent in if eq_ℤ k n then (k, out) ∷ rest else rest

eq_ℤ-eq : (a b : ℤ) → eq_ℤ a b ≡ true → a ≡ b
eq_ℤ-eq (pos a) (pos b) e = ground arith
eq_ℤ-eq (pos a) (negsuc b) e = ground arith
eq_ℤ-eq (negsuc a) (pos b) e = ground arith
eq_ℤ-eq (negsuc a) (negsuc b) e = ground arith

sessions-put : (n : ℤ) (o : Option Session) (m : Manager) → (put n o m).sessions n ≡ o
unfolding put
sessions-put n o m = rw (eq_ℤ-refl n) refl

-- Both panicked, or sent the same and have the same session `n`.
abbrev AreAlike : ℤ → Option (Manager × List Bytes) → Option (Manager × List Bytes) → Type 0
AreAlike n none none = Unit
AreAlike n none (some b) = ⊥
AreAlike n (some a) none = ⊥
AreAlike n (some (a, out)) (some (b, out')) = (out' ≡ out) × (b.sessions n ≡ a.sessions n)

perform-AreAlike :
    (n : ℤ) (es : List Effect) (a b : Manager)
    → b.sessions n ≡ a.sessions n
    → AreAlike n (some (perform n es a)) (some (perform n es b))
unfolding perform
perform-AreAlike n [] a b e = (refl, e)
perform-AreAlike n (dispatch msg ∷ es) a b e =
    let (out, same) = perform-AreAlike n es a b e in
    (ap (λ (x : List Bytes). dispatcher msg ++ x) out, same)
perform-AreAlike n (signal_ack len ∷ es) a b e = perform-AreAlike n es a b e
perform-AreAlike n (remove ∷ es) a b e =
    perform-AreAlike n es (put n none a) (put n none b)
      (sessions-put n none b ∙ sym (sessions-put n none a))

conclude-AreAlike :
    (n : ℤ) (a b : Manager) (o : Outcome) → AreAlike n (conclude n a o) (conclude n b o)
conclude-AreAlike n a b panic = tt
conclude-AreAlike n a b (done s es) =
    perform-AreAlike n es (put n (some s) a) (put n (some s) b)
      (sessions-put n (some s) b ∙ sym (sessions-put n (some s) a))

with_session-AreAlike :
    (msg : Message) (a b : Manager) (o : Option Session)
    → b.sessions (session_number msg) ≡ a.sessions (session_number msg)
    → AreAlike (session_number msg) (with_session msg a o) (with_session msg b o)
with_session-AreAlike msg a b none e = (refl, e)
with_session-AreAlike msg a b (some s) e =
    conclude-AreAlike (session_number msg) a b (handle_incoming msg s)

-- A message for the session itself.
own-AreAlike :
    (msg : Message) (a b : Manager)
    → b.sessions (session_number msg) ≡ a.sessions (session_number msg)
    → AreAlike (session_number msg) (handle_incoming_message msg a) (handle_incoming_message msg b)
unfolding handle_incoming_message
own-AreAlike (connect n) a b e =
    rw e (conclude-AreAlike n a b (handle_incoming (connect n) (or_new n (a.sessions n))))
own-AreAlike unknown a b e = rw e (with_session-AreAlike unknown a b (a.sessions (pos 0)) e)
own-AreAlike (data_ n p d) a b e = rw e (with_session-AreAlike (data_ n p d) a b (a.sessions n) e)
own-AreAlike (ack n l) a b e = rw e (with_session-AreAlike (ack n l) a b (a.sessions n) e)
own-AreAlike (close n) a b e = rw e (with_session-AreAlike (close n) a b (a.sessions n) e)

-- A message for another session, if the server goes on.
abbrev IsSame : ℤ → Manager → Option (Manager × List Bytes) → Type 0
IsSame k m none = Unit
IsSame k m (some (m', out)) = m'.sessions k ≡ m.sessions k

conclude-IsSame : (n k : ℤ) (m : Manager) (o : Outcome) → k ≢ n → IsSame k m (conclude n m o)
conclude-IsSame n k m panic ne = tt
conclude-IsSame n k m (done s es) ne =
    perform_ne n k es (put n (some s) m) ne ∙ sessions-put_ne n k (some s) m ne

with_session-IsSame :
    (msg : Message) (k : ℤ) (m : Manager) (o : Option Session)
    → k ≢ session_number msg
    → IsSame k m (with_session msg m o)
with_session-IsSame msg k m none ne = refl
with_session-IsSame msg k m (some s) ne =
    conclude-IsSame (session_number msg) k m (handle_incoming msg s) ne

other-IsSame :
    (msg : Message) (k : ℤ) (m : Manager)
    → k ≢ session_number msg
    → IsSame k m (handle_incoming_message msg m)
unfolding handle_incoming_message
other-IsSame (connect n) k m ne =
    conclude-IsSame n k m (handle_incoming (connect n) (or_new n (m.sessions n))) ne
other-IsSame unknown k m ne = with_session-IsSame unknown k m (m.sessions (pos 0)) ne
other-IsSame (data_ n p d) k m ne = with_session-IsSame (data_ n p d) k m (m.sessions n) ne
other-IsSame (ack n l) k m ne = with_session-IsSame (ack n l) k m (m.sessions n) ne
other-IsSame (close n) k m ne = with_session-IsSame (close n) k m (m.sessions n) ne

-- Of the managers `x` and `y`, the second has had the messages of session `n` alone.
abbrev IsShareOf : ℤ → Option (Manager × Sent) → Option (Manager × Sent) → Type 0
IsShareOf n none y = Unit
IsShareOf n (some x) none = ⊥
IsShareOf n (some (a, sent)) (some (b, sent')) =
    (sent' ≡ sent_of n sent) × (b.sessions n ≡ a.sessions n)

own_sent-IsShareOf :
    (n k : ℤ) (out : List Bytes) (x y : Option (Manager × Sent))
    → eq_ℤ k n ≡ true
    → IsShareOf n x y
    → IsShareOf n (sent_before k out x) (sent_before k out y)
own_sent-IsShareOf n k out none none own alike = tt
own_sent-IsShareOf n k out none (some y) own alike = tt
own_sent-IsShareOf n k out (some (a, sent)) none own alike = elim alike [ ]
own_sent-IsShareOf n k out (some (a, sent)) (some (b, sent')) own (e, same) =
    (rw (own, e) refl, same)

other_sent-IsShareOf :
    (n k : ℤ) (out : List Bytes) (x y : Option (Manager × Sent))
    → eq_ℤ k n ≡ false
    → IsShareOf n x y
    → IsShareOf n (sent_before k out x) y
other_sent-IsShareOf n k out none y ne alike = tt
other_sent-IsShareOf n k out (some (a, sent)) none ne alike = elim alike [ ]
other_sent-IsShareOf n k out (some (a, sent)) (some (b, sent')) ne (e, same) =
    (rw (ne, e) refl, same)

own_message-IsShareOf :
    (n k : ℤ) (f g : Manager → Option (Manager × Sent)) (x y : Option (Manager × List Bytes))
    → eq_ℤ k n ≡ true
    → ((a b : Manager) → b.sessions n ≡ a.sessions n → IsShareOf n (f a) (g b))
    → AreAlike n x y
    → IsShareOf n (after_message k f x) (after_message k g y)
own_message-IsShareOf n k f g none none own later alike = tt
own_message-IsShareOf n k f g none (some y) own later alike = elim alike [ ]
own_message-IsShareOf n k f g (some (a, out)) none own later alike = elim alike [ ]
own_message-IsShareOf n k f g (some (a, out)) (some (b, out')) own later (e, same) =
    rw e (own_sent-IsShareOf n k out (f a) (g b) own (later a b same))

other_message-IsShareOf :
    (n k : ℤ) (f : Manager → Option (Manager × Sent)) (a : Manager) (y : Option (Manager × Sent))
    (x : Option (Manager × List Bytes))
    → eq_ℤ k n ≡ false
    → ((a' : Manager) → a'.sessions n ≡ a.sessions n → IsShareOf n (f a') y)
    → IsSame n a x
    → IsShareOf n (after_message k f x) y
other_message-IsShareOf n k f a y none ne later same = tt
other_message-IsShareOf n k f a y (some (a', out)) ne later same =
    other_sent-IsShareOf n k out (f a') y ne (later a' same)

differs : (n k : ℤ) → eq_ℤ k n ≡ false → n ≢ k
differs n k ne e = ground arith

own_of-AreAlike :
    (n : ℤ) (msg : Message) (a b : Manager)
    → session_number msg ≡ n
    → b.sessions n ≡ a.sessions n
    → AreAlike n (handle_incoming_message msg a) (handle_incoming_message msg b)
own_of-AreAlike n msg a b own same =
    subst (λ (k : ℤ). AreAlike k (handle_incoming_message msg a) (handle_incoming_message msg b))
      own (own-AreAlike msg a b (subst (λ (k : ℤ). b.sessions k ≡ a.sessions k) (sym own) same))

handle_all-IsShareOf :
    (n : ℤ) (msgs : List Message) (a b : Manager)
    → b.sessions n ≡ a.sessions n
    → IsShareOf n (handle_all msgs a) (handle_all (messages_of n msgs) b)
handle_all-IsShareOf n [] a b same = (refl, same)
handle_all-IsShareOf n (msg ∷ msgs) a b same = elim (Bool-cases (eq_ℤ (session_number msg) n)) [
  | inl own ↦ rw own (
      own_message-IsShareOf n (session_number msg) (λ m'. handle_all msgs m')
        (λ m'. handle_all (messages_of n msgs) m') (handle_incoming_message msg a)
        (handle_incoming_message msg b) own (λ a' b' same'. handle_all-IsShareOf n msgs a' b' same')
        (own_of-AreAlike n msg a b (eq_ℤ-eq (session_number msg) n own) same))
  | inr other ↦ rw other (
      other_message-IsShareOf n (session_number msg) (λ m'. handle_all msgs m') a
        (handle_all (messages_of n msgs) b) (handle_incoming_message msg a) other
        (λ a' same'. handle_all-IsShareOf n msgs a' b (same ∙ sym same'))
        (other-IsSame msg n a (differs n (session_number msg) other)))
]

sessions_isolated_from :
    (n : ℤ) (a : Manager) (sent : Sent) (y : Option (Manager × Sent))
    → IsShareOf n (some (a, sent)) y
    → (b : Manager) × (y ≡ some (b, sent_of n sent)) × (b.sessions n ≡ a.sessions n)
sessions_isolated_from n a sent none alike = elim alike [ ]
sessions_isolated_from n a sent (some (b, sent')) (e, same) = (b, rw e refl, same)

-- If the server gets through the messages of all sessions without a panic, in whatever order they arrive, it gets
-- through those of session `n` alone: the session ends the same, and its client is sent the same for each of them.
pub sessions_isolated :
    (n : ℤ) (msgs : List Message) (m m' : Manager) (sent : Sent)
    → handle_all msgs m ≡ some (m', sent)
    → (m'' : Manager) × (handle_all (messages_of n msgs) m ≡ some (m'', sent_of n sent))
      × (m''.sessions n ≡ m'.sessions n)
sessions_isolated n msgs m m' sent e =
    sessions_isolated_from n m' sent (handle_all (messages_of n msgs) m) (
      subst (λ x. IsShareOf n x (handle_all (messages_of n msgs) m)) e
        (handle_all-IsShareOf n msgs m m refl))
