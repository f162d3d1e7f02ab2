-- ===== src/Lrcp/Session/Acks.antt =====
-- 7-line-reversal/lrcp/session.go: acknowledgements.
use protohackers.Prelude.{◌≡◌, List, [], ◌∷◌, arith, inl, inr, ◌↔◌, Bool-cases}
use protohackers.Prelude.Int.{ℤ, ◌≤ℤ◌, ◌<ℤ◌, leb_ℤ, ltb_ℤ}
use protohackers.Lrcp.Message.{close}
use protohackers.Lrcp.Session.{Session, Effect, done, dispatch, signal_ack, remove, handle_ack}

-- An old acknowledgement does nothing; one of more than was sent ends the session; any other is taken
-- over, and the sender is told. The acknowledged length never falls, and stays within what was sent.
pub handle_ack_lem :
    (len : ℤ) (s : Session)
    → s.len_total_outgoing ≤ℤ s.should_be_sent
    → (s' : Session) × (effects : List Effect) × (handle_ack len s ≡ done s' effects)
      × (s.len_total_outgoing ≤ℤ s'.len_total_outgoing)
      × (s'.len_total_outgoing ≤ℤ s'.should_be_sent)
      × ((effects ≡ signal_ack len ∷ [])
          ↔ ((s.len_total_outgoing <ℤ len) × (len ≤ℤ s.should_be_sent)))
      × ((effects ≡ remove ∷ dispatch (close s.number) ∷ []) ↔ (s.should_be_sent <ℤ len))
      × ((effects ≡ []) ↔ (len ≤ℤ s.len_total_outgoing))
unfolding handle_ack
handle_ack_lem len s h = elim (Bool-cases (leb_ℤ len s.len_total_outgoing)) [
  | inl old ↦
      (s, [], ground arith, ground arith, ground arith, ground arith, ground arith, ground arith)
  | inr new ↦ elim (Bool-cases (ltb_ℤ s.should_be_sent len)) [
    | inl beyond ↦ (
      s,
      remove ∷ dispatch (close s.number) ∷ [],
      ground arith,
      ground arith,
      ground arith,
      ground arith,
      ground arith,
      ground arith,
    )
    | inr within ↦ (
      record s { len_total_outgoing = len },
      signal_ack len ∷ [],
      ground arith,
      ground arith,
      ground arith,
      ground arith,
      ground arith,
      ground arith,
    )
  ]
]
