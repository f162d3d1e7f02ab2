-- ===== src/Speed/Message/Sound.antt =====
-- 6-speed-daemon/message.go: `UnmarshalMessage` accepts nothing but what `Marshal` writes.
use protohackers.Prelude.{
  ℕ, zero, suc, ◌≤◌, ◌%◌, ◌≡◌, ◌≢◌, sym, ap, ◌∙◌, subst, Option, none, List, [], ◌∷◌, ◌++◌,
  append_assoc, ok, Bytes, length, drop, arith, All, IsByte, take-append-drop, length-take,
  >>=-eq-ok,
}
use protohackers.Prelude.Words.{be16, be32}
use protohackers.Speed.Message.{
  Message, Error, marshal, unknown, FitsStr, IsU16, IsU32, IsWireable, unmarshal_message,
  unmarshaler, read_full, read_u8, read_u16, read_u32, read_u16s, read_str, read_roads, write_u16s,
  unmarshal_error, unmarshal_plate, unmarshal_ticket, unmarshal_want_heartbeat,
  unmarshal_i_am_camera, unmarshal_i_am_dispatcher,
}
use protohackers.Speed.Message.RoundTrip.{wire, marshal-wire}

read_u8_inv : (r : Bytes) {c : ℕ} {r' : Bytes} → read_u8 r ≡ ok (c, r') → r ≡ c ∷ r'
unfolding read_u8
read_u8_inv [] h = ground arith
read_u8_inv (a ∷ r) h = ground arith

read_u16_inv :
    (r : Bytes) (n : ℕ) (r' : Bytes)
    → read_u16 r ≡ ok (n, r')
    → All IsByte r
    → (r ≡ be16 n ++ r') × IsU16 n × All IsByte r'
unfolding read_u16
read_u16_inv [] n r' h b = ground arith
read_u16_inv (a ∷ []) n r' h b = ground arith
read_u16_inv (a ∷ c ∷ r) n r' h b = ground arith

read_u32_inv :
    (r : Bytes) (n : ℕ) (r' : Bytes)
    → read_u32 r ≡ ok (n, r')
    → All IsByte r
    → (r ≡ be32 n ++ r') × IsU32 n × All IsByte r'
unfolding read_u32
read_u32_inv [] n r' h b = ground arith
read_u32_inv (a ∷ []) n r' h b = ground arith
read_u32_inv (a ∷ c ∷ []) n r' h b = ground arith
read_u32_inv (a ∷ c ∷ d ∷ []) n r' h b = ground arith
read_u32_inv (a ∷ c ∷ d ∷ e ∷ r) n r' h b = ground arith

All-drop : (n : ℕ) (r : Bytes) → All IsByte r → All IsByte (drop n r)
All-drop zero r h = h
All-drop (suc n) [] h = tt
All-drop (suc n) (x ∷ r) h = All-drop n r h.1

read_full_inv :
    (n : ℕ) (r s r' : Bytes)
    → read_full n r ≡ ok (s, r')
    → All IsByte r
    → (r ≡ s ++ r') × (length s ≡ n) × All IsByte r'
unfolding read_full
read_full_inv n r s r' h b = ground (arith, take-append-drop n r, length-take n r, All-drop n r b)

read_str_inv :
    (r s r' : Bytes)
    → read_str r ≡ ok (s, r')
    → All IsByte r
    → (r ≡ (length s % 256) ∷ s ++ r') × FitsStr s × All IsByte r'
unfolding read_str read_u8
read_str_inv [] s r' h b = ground arith
read_str_inv (c ∷ r) s r' h b = ground (arith, read_full_inv c r s r')

read_u16s_inv :
    (n : ℕ) (r : Bytes) (us : List ℕ) (r' : Bytes)
    → read_u16s n r ≡ ok (us, r')
    → All IsByte r
    → (r ≡ write_u16s us ++ r') × (length us ≡ n) × All IsU16 us × All IsByte r'
unfolding read_u16s
read_u16s_inv zero r us r' h b = ground arith
read_u16s_inv (suc n) r us r' h b =
    let ((u, r1), e1, h1) = >>=-eq-ok (read_u16 r) _ h in
    let ((vs, r2), e2, h2) = >>=-eq-ok (read_u16s n r1) _ h1 in
    let (p, q, b1) = read_u16_inv r u r1 e1 b in
    let (p', q', v, b2) = read_u16s_inv n r1 vs r2 e2 b1 in
    ground (arith, append_assoc (be16 u) (write_u16s vs) r2)

read_roads_inv :
    (r : Bytes) (us : List ℕ) (r' : Bytes)
    → read_roads r ≡ ok (us, r')
    → All IsByte r
    → (r ≡ (length us % 256) ∷ write_u16s us ++ r')
      × (length us ≤ 255)
      × All IsU16 us
      × All IsByte r'
unfolding read_roads read_u8
read_roads_inv [] us r' h b = ground arith
read_roads_inv (c ∷ r) us r' h b = ground (arith, read_u16s_inv c r us r')

-- The stream `r` is the wire form of `m`, which fits it, followed by `rest`.
abbrev pub Carries : Bytes → Message → Bytes → Type 0
Carries r m rest = (r ≡ wire m ++ rest) × IsWireable m

unmarshal_error_inv :
    (r : Bytes) (m : Message) (rest : Bytes)
    → unmarshal_error r ≡ ok (m, rest)
    → All IsByte r
    → Carries (0x10 ∷ r) m rest
unfolding unmarshal_error
unmarshal_error_inv r m rest h b =
    let ((s, r1), e1, h1) = >>=-eq-ok (read_str r) _ h in
    let (p, q, b1) = read_str_inv r s r1 e1 b in ground arith

unmarshal_plate_inv :
    (r : Bytes) (m : Message) (rest : Bytes)
    → unmarshal_plate r ≡ ok (m, rest)
    → All IsByte r
    → Carries (0x20 ∷ r) m rest
unfolding unmarshal_plate
unmarshal_plate_inv r m rest h b =
    let ((s, r1), e1, h1) = >>=-eq-ok (read_str r) _ h in
    let ((t, r2), e2, h2) = >>=-eq-ok (read_u32 r1) _ h1 in
    let (p1, q1, b1) = read_str_inv r s r1 e1 b in
    let (p2, q2, b2) = read_u32_inv r1 t r2 e2 b1 in ground (arith, append_assoc s (be32 t) r2)

unmarshal_want_heartbeat_inv :
    (r : Bytes) (m : Message) (rest : Bytes)
    → unmarshal_want_heartbeat r ≡ ok (m, rest)
    → All IsByte r
    → Carries (0x40 ∷ r) m rest
unfolding unmarshal_want_heartbeat
unmarshal_want_heartbeat_inv r m rest h b =
    let ((i, r1), e1, h1) = >>=-eq-ok (read_u32 r) _ h in
    let (p, q, b1) = read_u32_inv r i r1 e1 b in ground arith

unmarshal_i_am_camera_inv :
    (r : Bytes) (m : Message) (rest : Bytes)
    → unmarshal_i_am_camera r ≡ ok (m, rest)
    → All IsByte r
    → Carries (0x80 ∷ r) m rest
unfolding unmarshal_i_am_camera
unmarshal_i_am_camera_inv r m rest h b =
    let ((road, r1), e1, h1) = >>=-eq-ok (read_u16 r) _ h in
    let ((mile, r2), e2, h2) = >>=-eq-ok (read_u16 r1) _ h1 in
    let ((limit, r3), e3, h3) = >>=-eq-ok (read_u16 r2) _ h2 in
    let (p1, q1, b1) = read_u16_inv r road r1 e1 b in
    let (p2, q2, b2) = read_u16_inv r1 mile r2 e2 b1 in
    let (p3, q3, b3) = read_u16_inv r2 limit r3 e3 b2 in ground arith

unmarshal_i_am_dispatcher_inv :
    (r : Bytes) (m : Message) (rest : Bytes)
    → unmarshal_i_am_dispatcher r ≡ ok (m, rest)
    → All IsByte r
    → Carries (0x81 ∷ r) m rest
unfolding unmarshal_i_am_dispatcher
unmarshal_i_am_dispatcher_inv r m rest h b =
    let ((rs, r1), e1, h1) = >>=-eq-ok (read_roads r) _ h in
    let (p, q, q', b1) = read_roads_inv r rs r1 e1 b in ground arith

unmarshal_ticket_inv :
    (r : Bytes) (m : Message) (rest : Bytes)
    → unmarshal_ticket r ≡ ok (m, rest)
    → All IsByte r
    → Carries (0x21 ∷ r) m rest
unfolding unmarshal_ticket
unmarshal_ticket_inv r m rest h b =
    let ((s, r1), e1, h1) = >>=-eq-ok (read_str r) _ h in
    let ((road, r2), e2, h2) = >>=-eq-ok (read_u16 r1) _ h1 in
    let ((m1, r3), e3, h3) = >>=-eq-ok (read_u16 r2) _ h2 in
    let ((t1, r4), e4, h4) = >>=-eq-ok (read_u32 r3) _ h3 in
    let ((m2, r5), e5, h5) = >>=-eq-ok (read_u16 r4) _ h4 in
    let ((t2, r6), e6, h6) = >>=-eq-ok (read_u32 r5) _ h5 in
    let ((v, r7), e7, h7) = >>=-eq-ok (read_u16 r6) _ h6 in
    let (p1, q1, b1) = read_str_inv r s r1 e1 b in
    let (p2, q2, b2) = read_u16_inv r1 road r2 e2 b1 in
    let (p3, q3, b3) = read_u16_inv r2 m1 r3 e3 b2 in
    let (p4, q4, b4) = read_u32_inv r3 t1 r4 e4 b3 in
    let (p5, q5, b5) = read_u16_inv r4 m2 r5 e5 b4 in
    let (p6, q6, b6) = read_u32_inv r5 t2 r6 e6 b5 in
    let (p7, q7, b7) = read_u16_inv r6 v r7 e7 b6 in
    ground (
      arith,
      append_assoc s (be16 road ++ (be16 m1 ++ (be32 t1 ++ (be16 m2 ++ (be32 t2 ++ be16 v))))) r7,
    )

unmarshaler_inv :
    (c : ℕ) (r : Bytes) (m : Message) (rest : Bytes)
    → unmarshaler c r ≡ ok (m, rest)
    → m ≢ unknown
    → All IsByte r
    → Carries (c ∷ r) m rest
unfolding unmarshaler
unmarshaler_inv c r m rest h n b = ground (
  arith,
  unmarshal_error_inv r m rest,
  unmarshal_plate_inv r m rest,
  unmarshal_ticket_inv r m rest,
  unmarshal_want_heartbeat_inv r m rest,
  unmarshal_i_am_camera_inv r m rest,
  unmarshal_i_am_dispatcher_inv r m rest,
)

-- Whatever is read from a stream of bytes as a message of a known type, the stream is what `Marshal`
-- writes for that message, followed by what is left to read; and the message fits the wire types.
pub unmarshal_sound :
    (r : Bytes) (m : Message) (rest : Bytes)
    → All IsByte r
    → m ≢ unknown
    → unmarshal_message r ≡ ok (m, rest)
    → IsWireable m × ((marshal m).1 ≡ none) × (r ≡ (marshal m).0 ++ rest)
unfolding unmarshal_message
unmarshal_sound r m rest b n h =
    let ((c, r1), e1, h1) = >>=-eq-ok (read_u8 r) _ h in
    let e = read_u8_inv r e1 in
    let (p, q) = unmarshaler_inv c r1 m rest h1 n (subst (All IsByte) e b).1 in
    (
      q,
      ap (λ (t : Bytes × Option Error). t.1) (marshal-wire m q),
      e ∙ p ∙ ap (λ (t : Bytes × Option Error). t.0 ++ rest) (sym (marshal-wire m q)),
    )
