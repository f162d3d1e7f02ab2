-- ===== src/Lrcp/Delivery/Acks.antt =====
-- 7-line-reversal/lrcp/session.go: the end that is answered with acknowledgements.
use protohackers.Prelude.{
  ℕ, ◌+◌, ◌-◌, ◌≤◌, ◌<◌, ◌^◌, ◌≡◌, refl, ap, ◌∙◌, subst, true, false, List, [], ◌∷◌, Option, some,
  Bytes, length, leb, arith, Bool-cases, inl, inr, length-append,
}
use protohackers.Prelude.Int.{ℤ, pos, ◌+ℤ◌, leb_ℤ, ltb_ℤ, ◌-ℤ◌, wrap32}
use protohackers.Lrcp.Message.{Message, ack}
use protohackers.Lrcp.Session.{Session, done, signal_ack, handle_ack, handle_incoming}
use protohackers.Lrcp.Sender.{begin_line, Sending, wake, is_finished}
use protohackers.Lrcp.Delivery.{after_ack, acknowledge, AreAcks}

-- The sender of a line that begins at `init` and ends at `total`, with `acked` bytes acknowledged.
pub record IsSending (init total acked : ℕ) (s : Session) (t : Sending) : Type 0 where
  pub outgoing : s.len_total_outgoing ≡ pos acked
  pub should : s.should_be_sent ≡ pos total
  pub begun : t.init_len ≡ pos init
  pub current : t.cur_pos ≡ pos (acked - init)
  pub whole : init + length t.buf ≡ total
  pub above : init ≤ acked
  pub below : acked ≤ total

handle_ack_old :
    (k acked : ℕ) (s : Session)
    → s.len_total_outgoing ≡ pos acked
    → k ≤ acked
    → handle_ack (pos k) s ≡ done s []
unfolding handle_ack
handle_ack_old k acked s e le =
    let old : leb_ℤ (pos k) s.len_total_outgoing ≡ true = (rw e (ground arith)) in rw old refl

handle_ack_new :
    (k acked total : ℕ) (s : Session)
    → s.len_total_outgoing ≡ pos acked
    → s.should_be_sent ≡ pos total
    → acked < k
    → k ≤ total
    → handle_ack (pos k) s
      ≡ done (record s { len_total_outgoing = pos k }) (signal_ack (pos k) ∷ [])
unfolding handle_ack
handle_ack_new k acked total s e e' lt le =
    let new : leb_ℤ (pos k) s.len_total_outgoing ≡ false = (rw e (ground arith)) in
    let within : ltb_ℤ s.should_be_sent (pos k) ≡ false = (rw e' (ground arith)) in
    rw (new, within) refl

-- An acknowledgement of no more than was sent: the larger length is taken over.
ack_step :
    (n num : ℤ) (k init total acked : ℕ) (s : Session) (t : Sending)
    (next : Session → Sending → Option (Session × Sending))
    → IsSending init total acked s t
    → k ≤ total
    → total < 2 ^ 31
    → (s' : Session) × (t' : Sending) × (acked' : ℕ) × (after_ack next n t
          (handle_incoming (ack num (pos k)) s)
        ≡ next s' t')
      × IsSending init total acked' s' t'
      × (k ≤ acked')
unfolding handle_incoming wake
ack_step n num k init total acked s t next sending le short = elim (Bool-cases (leb k acked)) [
  | inl old ↦ (
    s,
    t,
    acked,
    ap (after_ack next n t) (handle_ack_old k acked s sending.outgoing (ground arith)),
    sending,
    ground arith,
  )
  | inr new ↦
      let at : wrap32 (pos k -ℤ t.init_len) ≡ pos (k - init) =
        (rw sending.begun (unfold ◌-ℤ◌ wrap32 in ground (arith, new, sending.above))) in
      (
        record s { len_total_outgoing = pos k },
        record t { cur_pos = wrap32 (pos k -ℤ t.init_len) },
        k,
        ap (after_ack next n t)
            (handle_ack_new k acked total s sending.outgoing sending.should (ground arith) le),
        record {
          outgoing = refl;
          should = sending.should;
          begun = sending.begun;
          current = at;
          whole = sending.whole;
          above = ground (arith, new, sending.above);
          below = le;
        },
        omega arith,
      )
]

pub acks_handled :
    (n num : ℤ) (acks : List Message) (lo init total acked : ℕ) (s : Session) (t : Sending)
    → IsSending init total acked s t
    → total < 2 ^ 31
    → AreAcks num lo total acks
    → (acks ≡ [] → acked ≡ total)
    → (s' : Session) × (t' : Sending) × (acknowledge n acks s t ≡ some (s', t'))
      × IsSending init total total s' t'
acks_handled n num [] lo init total acked s t sending short are last =
    (s, t, refl, subst (λ (a : ℕ). IsSending init total a s t) (last refl) sending)
acks_handled n num (m ∷ ms) lo init total acked s t sending short (k, em, le, le', are) last =
    let next = λ (s' : Session). λ (t' : Sending). acknowledge n ms s' t' in
    let (s1, t1, acked1, step, sending1, more) =
      ack_step n num k init total acked s t next sending le' short in
    let last1 : ms ≡ [] → acked1 ≡ total = (λ none_left.
      let at_total : k ≡ total =
        (subst (λ (some_acks : List Message). AreAcks num k total some_acks) none_left are) in
      omega (arith, at_total, more, sending1.below)) in
    let (s2, t2, run, sending2) =
      acks_handled n num ms k init total acked1 s1 t1 sending1 short are last1 in
    (
      s2,
      t2,
      ap (λ (x : Message). after_ack next n t (handle_incoming x s)) em ∙ step ∙ run,
      sending2,
    )

pub finished :
    (init total : ℕ) (s : Session) (t : Sending)
    → IsSending init total total s t
    → is_finished t ≡ true
unfolding is_finished
finished init total s t sending = rw sending.current (ground (arith, sending.whole))

-- From the start of a line on, the sender is in such a state, if there is room in the stream.
pub begin_line-IsSending :
    (out : Bytes) (init : ℕ) (s : Session)
    → s.len_total_outgoing ≡ pos init
    → init + length out + 1 < 2 ^ 31
    → let (s', t) = begin_line out s in IsSending init (init + length t.buf) init s' t
unfolding begin_line
begin_line-IsSending out init s e short = record {
  outgoing = e;
  should = rw e (unfold wrap32 ◌+ℤ◌ in ground (arith, short, length-append out (10 ∷ [])));
  begun = e;
  current = ap pos (omega arith);
  whole = refl;
  above = omega arith;
  below = omega arith;
}
