-- ===== src/Lrcp/Sender/Burst.antt =====
-- 7-line-reversal/lrcp/session.go: a round sends all that is not acknowledged, in packets that fit.
use protohackers.Prelude.{
  ℕ, zero, suc, ◌+◌, ◌-◌, ◌*◌, ◌/◌, ◌≤◌, ◌<◌, ◌^◌, min, leb, ◌≡◌, refl, sym, ap, ◌∙◌, true, List,
  [], ◌∷◌, ◌++◌, Bytes, length, take, drop, ltb, arith, Bool-cases, inl, inr, length-take,
  length-drop, take-append-drop, drop-length-append, drop_all, ◌↔◌, append_assoc, append-nil,
  length-append,
}
use protohackers.Prelude.Int.{ℤ, pos, ◌+ℤ◌, ◌-ℤ◌, IsInt32, wrap32, wrap32_id}
use protohackers.Lrcp.Message.{Message, data_, mtu, marshal_size, escaped_length}
use protohackers.Lrcp.Message.Numbers.{digits_of-le}
use protohackers.Lrcp.Sender.{slice_packet, burst, Sending, is_finished, round, wake, ack_signal}

escaped_length-le : (d : Bytes) → escaped_length d ≤ 2 * length d
unfolding escaped_length
escaped_length-le [] = omega arith
escaped_length-le (c ∷ d) = ground (arith, escaped_length-le d)

-- A message that is too large holds hundreds of bytes.
large_data :
    (n p : ℤ) (d : Bytes)
    → IsInt32 n
    → IsInt32 p
    → mtu < marshal_size (data_ n p d)
    → 480 ≤ length d
unfolding marshal_size
large_data n p d hn hp h = omega (arith, digits_of-le n hn, digits_of-le p hp, escaped_length-le d)

module _ (n p : ℤ) (hn : IsInt32 n) (hp : IsInt32 p) where
  -- The part that is sent fits, is not empty, and is a beginning of the data.
  slice_packet_lem :
      (f : ℕ) (d : Bytes)
      → length d ≤ f
      → 0 < length d
      → (rest : Bytes) × (d ≡ slice_packet f n p d ++ rest)
        × (0 < length (slice_packet f n p d))
        × (marshal_size (data_ n p (slice_packet f n p d)) ≤ mtu)
  unfolding slice_packet
  slice_packet_lem zero d h pos' = absurd (omega arith)
  slice_packet_lem (suc f) d h pos' = elim (Bool-cases (ltb mtu (marshal_size (data_ n p d)))) [
    | inl big ↦
        let k : ℕ = min mtu (length d * 9 / 10) in
        let long = large_data n p d hn hp (ground arith) in
        let (rest, whole, nonempty, fits) =
          slice_packet_lem f (take k d) (omega (arith, length-take k d))
            (omega (arith, length-take k d)) in
        rw big (
          rest ++ drop k d,
          sym (take-append-drop k d)
              ∙ ap (λ (t : Bytes). t ++ drop k d) whole
              ∙ append_assoc _ rest (drop k d),
          nonempty,
          fits,
        )
    | inr small ↦ rw small ([], sym (append-nil d), pos', ground arith)
  ]

-- The messages are data of session `n` from the place `p` on, one behind the other, each not empty and
-- within the MTU, and they carry all of `d`.
abbrev pub Carried : ℤ → ℕ → List Message → Bytes → Type 0
Carried n p [] d = d ≡ []
Carried n p (m ∷ ms) d =
    (part : Bytes) × (rest : Bytes) × (m ≡ data_ n (pos p) part)
    × (d ≡ part ++ rest)
    × (0 < length part)
    × (marshal_size m ≤ mtu)
    × Carried n (p + length part) ms rest

-- Whatever the data, fuel of its length is enough to send all of it, in packets that are not empty and
-- within the MTU, each at its place in the stream, as long as the places are int32s.
pub burst-Carried :
    (f : ℕ) (n : ℤ) (p : ℕ) (d : Bytes)
    → IsInt32 n
    → length d ≤ f
    → p + length d < 2 ^ 31
    → Carried n p (burst f n (pos p) d) d
unfolding burst
burst-Carried zero n p [] hn h short = refl
burst-Carried zero n p (c ∷ d) hn h short = absurd (omega arith)
burst-Carried (suc f) n p [] hn h short = refl
burst-Carried (suc f) n p (c ∷ d) hn h short =
    let at : wrap32 (pos p) ≡ pos p = wrap32_id (pos p) (omega arith) in
    let part = slice_packet (length (c ∷ d)) n (pos p) (c ∷ d) in
    let (rest, whole, nonempty, fits) =
      slice_packet_lem n (pos p) hn (omega arith) (length (c ∷ d)) (c ∷ d) (omega arith)
        (omega arith) in
    let behind : drop (length part) (c ∷ d) ≡ rest =
      (ap (drop (length part)) whole ∙ drop-length-append part rest) in
    let next : pos p +ℤ pos (length part) ≡ pos (p + length part) = (unfold ◌+ℤ◌ in ground arith) in
    let sizes = ap (length {A = ℕ}) whole ∙ length-append part rest in
    rw (at, behind, next)
      (
        part,
        rest,
        refl,
        whole,
        nonempty,
        fits,
        burst-Carried f n (p + length part) rest hn (omega arith) (omega arith),
      )

-- A round at the place `cur`.
pub round-Carried :
    (n : ℤ) (t : Sending) (init cur : ℕ)
    → IsInt32 n
    → t.init_len ≡ pos init
    → t.cur_pos ≡ pos cur
    → cur ≤ length t.buf
    → init + length t.buf < 2 ^ 31
    → Carried n (init + cur) (round n t) (drop cur t.buf)
unfolding round is_finished
round-Carried n t init cur hn e e' hi short =
    let next : pos init +ℤ pos cur ≡ pos (init + cur) = (unfold ◌+ℤ◌ in ground arith) in
    elim (Bool-cases (leb (length t.buf + 0) (cur + 0))) [
      | inl over ↦ rw (e', over) (drop_all cur t.buf (ground arith))
      | inr more ↦
          rw (e', more, e, next)
            (burst-Carried (length (drop cur t.buf)) n (init + cur) (drop cur t.buf) hn
              (omega arith) (omega (arith, length-drop cur t.buf)))
    ]

-- After an acknowledgement inside the line, a round sends the bytes of the line behind it, at their
-- places in the stream, in packets within the MTU, if the places are int32s; and the line is
-- finished exactly if the whole of it is acknowledged.
pub wake-round :
    (n : ℤ) (t : Sending) (init ack_len : ℕ)
    → IsInt32 n
    → t.init_len ≡ pos init
    → init ≤ ack_len
    → ack_len ≤ init + length t.buf
    → init + length t.buf < 2 ^ 31
    → let t' = (wake n (ack_signal (pos ack_len)) t).0 in
      Carried n ack_len (round n t') (drop (ack_len - init) t.buf)
      × ((is_finished t' ≡ true) ↔ (ack_len ≡ init + length t.buf))
unfolding wake is_finished
wake-round n t init ack_len hn e lo hi short =
    let at : wrap32 (pos ack_len -ℤ t.init_len) ≡ pos (ack_len - init) =
      (rw e (unfold ◌-ℤ◌ wrap32 in ground arith)) in
    let k : ℕ = ack_len - init in
    let same : init + k ≡ ack_len = (omega arith) in
    let sent =
      round-Carried n (record t { cur_pos = pos k }) init k hn e refl (omega arith) short in
    rw at (rw same at sent, (λ h. ground arith, λ h. ground arith))
