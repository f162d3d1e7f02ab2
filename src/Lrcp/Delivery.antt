-- ===== src/Lrcp/Delivery.antt =====
-- 7-line-reversal/lrcp/session.go: the two ends together. `receive` handles the messages of a round at
-- one end, `acknowledge` what the other end gets for it.
pub mod Segments
pub mod Acks
pub mod Rounds
use protohackers.Prelude.{
  ℕ, zero, suc, ◌+◌, ◌-◌, ◌≤◌, ◌<◌, ◌^◌, ◌≡◌, ◌≢◌, refl, sym, ap, ◌∙◌, subst, true, false, List, [],
  ◌∷◌, ◌++◌, append_assoc, append-nil, Option, none, some, Bytes, length, take, drop, ltb, leb,
  arith, Bool-cases, inl, inr, length-append, length-take, take_all, ◌&&◌, length-drop,
  take-append-drop, take-length-append,
}
use protohackers.Prelude.Int.{ℤ, pos, leb_ℤ, ltb_ℤ, ◌-ℤ◌, IsInt32, wrap32}
use protohackers.Lrcp.Message.{Message, data_, ack}
use protohackers.Lrcp.Session.{
  Session, Outcome, Effect, done, panic, dispatch, signal_ack, remove, handle_data, handle_ack,
  handle_incoming,
}
use protohackers.Lrcp.Session.Stream.{FitsFrom}
use protohackers.Lrcp.Session.Received.{Received, grown, handle_data-Received}
use protohackers.Lrcp.Sender.{Sending, wake, ack_signal, round, is_finished}
use protohackers.Lrcp.Sender.Burst.{Carried, round-Carried}

abbrev pub dispatched : List Effect → List Message
dispatched [] = []
dispatched (dispatch m ∷ es) = m ∷ dispatched es
dispatched (signal_ack k ∷ es) = dispatched es
dispatched (remove ∷ es) = dispatched es

abbrev pub answered :
    List Effect → Option (Session × List Message) → Option (Session × List Message)
answered es none = none
answered es (some (s, ms)) = some (s, dispatched es ++ ms)

abbrev pub after_step :
    (Session → Option (Session × List Message)) → Outcome → Option (Session × List Message)
after_step next panic = none
after_step next (done s es) = answered es (next s)

-- The messages arrive one after the other: the session after them, and what it sends.
abbrev pub receive : List Message → Session → Option (Session × List Message)
receive [] s = some (s, [])
receive (m ∷ ms) s = after_step (λ s'. receive ms s') (handle_incoming m s)

-- The effects on the sender; there is none when the session is removed.
abbrev pub react : ℤ → List Effect → Sending → Option Sending
react n [] t = some t
react n (dispatch m ∷ es) t = react n es t
react n (signal_ack k ∷ es) t = react n es (wake n (ack_signal k) t).0
react n (remove ∷ es) t = none

abbrev pub with_sender :
    (Sending → Option (Session × Sending)) → Option Sending → Option (Session × Sending)
with_sender next none = none
with_sender next (some t) = next t

abbrev pub after_ack :
    (Session → Sending → Option (Session × Sending))
    → ℤ
    → Sending
    → Outcome
    → Option (Session × Sending)
after_ack next n t panic = none
after_ack next n t (done s es) = with_sender (next s) (react n es t)

abbrev pub acknowledge : ℤ → List Message → Session → Sending → Option (Session × Sending)
acknowledge n [] s t = some (s, t)
acknowledge n (m ∷ ms) s t =
    after_ack (λ s'. λ t'. acknowledge n ms s' t') n t (handle_incoming m s)

-- Acknowledgements of at least `lo` bytes, which do not fall, the last one of `total`.
abbrev pub AreAcks : ℤ → ℕ → ℕ → List Message → Type 0
AreAcks num lo total [] = lo ≡ total
AreAcks num lo total (m ∷ ms) =
    (k : ℕ) × (m ≡ ack num (pos k)) × (lo ≤ k) × (k ≤ total) × AreAcks num k total ms
