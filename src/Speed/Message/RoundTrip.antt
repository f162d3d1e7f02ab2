-- ===== src/Speed/Message/RoundTrip.antt =====
-- 6-speed-daemon/message.go: what `Marshal` writes, `UnmarshalMessage` reads back.
use protohackers.Prelude.{
  ◌≢◌, ◌↔◌, ◌⊎◌, ltb, false, ℕ, ◌≤◌, ◌<◌, ◌%◌, ◌≡◌, refl, List, [], ◌∷◌, ◌++◌, append_assoc, none,
  ok, Bytes, length, arith, All, length-append, take-length-append, drop-length-append,
}
use protohackers.Prelude.Words.{be16, be32, of_be16-be16, of_be32-be32}
use protohackers.Speed.Message.{
  Message, unknown, heartbeat, error, plate, ticket, want_heartbeat, i_am_camera, i_am_dispatcher,
  FitsStr, IsU16, IsU32, IsWireable, marshal, construct_packet_data, unmarshal_message, unmarshaler,
  read_full, read_u8, read_u16, read_u32, read_u16s, read_str, read_roads, write_u16s,
  unmarshal_error, unmarshal_plate, unmarshal_ticket, unmarshal_want_heartbeat,
  unmarshal_i_am_camera, unmarshal_i_am_dispatcher,
}

read_u8-cons : (c : ℕ) (rest : Bytes) → read_u8 (c ∷ rest) ≡ ok (c, rest)
unfolding read_u8
read_u8-cons c rest = ground arith

pub read_u16-be16 : (n : ℕ) (rest : Bytes) → IsU16 n → read_u16 (be16 n ++ rest) ≡ ok (n, rest)
unfolding read_u16
read_u16-be16 n rest h = ground (arith, of_be16-be16 n h)

pub read_u32-be32 : (n : ℕ) (rest : Bytes) → IsU32 n → read_u32 (be32 n ++ rest) ≡ ok (n, rest)
unfolding read_u32
read_u32-be32 n rest h = ground (arith, of_be32-be32 n h)

read_full-append : (s rest : Bytes) → read_full (length s) (s ++ rest) ≡ ok (s, rest)
unfolding read_full
read_full-append s rest =
    rw (take-length-append s rest, drop-length-append s rest) (ground (arith, length-append s rest))

pub read_str-append :
    (s rest : Bytes) → FitsStr s → read_str ((length s % 256) ∷ s ++ rest) ≡ ok (s, rest)
unfolding read_str read_u8
read_str-append s rest h = ground (arith, read_full-append s rest)

read_u16s-append :
    (us : List ℕ) (rest : Bytes)
    → All IsU16 us
    → read_u16s (length us) (write_u16s us ++ rest) ≡ ok (us, rest)
unfolding read_u16s
read_u16s-append [] rest h = refl
read_u16s-append (u ∷ us) rest (hu, hs) = simp (read_u16-be16 u _ hu, read_u16s-append us rest hs)

pub read_roads-append :
    (us : List ℕ) (rest : Bytes)
    → length us ≤ 255
    → All IsU16 us
    → read_roads ((length us % 256) ∷ write_u16s us ++ rest) ≡ ok (us, rest)
unfolding read_roads read_u8
read_roads-append us rest h hs = ground (arith, read_u16s-append us rest hs)

le_max_byte : (n : ℕ) → n ≤ 255 → ltb 255 n ≡ false
le_max_byte n h = ground arith

-- The bytes of a message on the wire.
abbrev pub wire : Message → Bytes
wire unknown = []
wire heartbeat = 0x41 ∷ []
wire (error m) = 0x10 ∷ (length m % 256) ∷ m
wire (plate p t) = 0x20 ∷ (length p % 256) ∷ p ++ be32 t
wire (ticket t) =
    0x21 ∷ (length t.plate % 256) ∷ t.plate
    ++ (be16 t.road
        ++ (be16 t.mile1
            ++ (be32 t.timestamp1 ++ (be16 t.mile2 ++ (be32 t.timestamp2 ++ be16 t.speed)))))
wire (want_heartbeat i) = 0x40 ∷ be32 i
wire (i_am_camera r m l) = 0x80 ∷ be16 r ++ (be16 m ++ be16 l)
wire (i_am_dispatcher rs) = 0x81 ∷ (length rs % 256) ∷ write_u16s rs

pub marshal-wire : (m : Message) → IsWireable m → marshal m ≡ (wire m, none)
unfolding marshal construct_packet_data
marshal-wire unknown h = absurd h
marshal-wire heartbeat h = refl
marshal-wire (error m) h = rw (le_max_byte _ h)
marshal-wire (plate p t) h = rw (le_max_byte _ h.0)
marshal-wire (ticket t) h = rw (le_max_byte _ h.0) (simp append_assoc)
marshal-wire (want_heartbeat i) h = refl
marshal-wire (i_am_camera r m l) h = refl
marshal-wire (i_am_dispatcher rs) h = rw (le_max_byte _ h.0)

unmarshal-wire :
    (m : Message) (rest : Bytes) → IsWireable m → unmarshal_message (wire m ++ rest) ≡ ok (m, rest)
unfolding unmarshal_message unmarshaler
unmarshal-wire unknown rest h = absurd h
unmarshal-wire heartbeat rest h = simp read_u8-cons
unmarshal-wire (error m) rest h =
    unfold unmarshal_error in simp (read_u8-cons, read_str-append m rest h)
unmarshal-wire (plate p t) rest h =
    unfold unmarshal_plate in
    simp
      (append_assoc, read_u8-cons, read_str-append p (be32 t ++ rest) h.0, read_u32-be32 t rest h.1)
unmarshal-wire (ticket t) rest (hp, hr, h1, h2, h3, h4, hs) =
    unfold unmarshal_ticket in
    simp (
      append_assoc,
      read_u8-cons,
      read_str-append t.plate _ hp,
      read_u16-be16 t.road _ hr,
      read_u16-be16 t.mile1 _ h1,
      read_u32-be32 t.timestamp1 _ h2,
      read_u16-be16 t.mile2 _ h3,
      read_u32-be32 t.timestamp2 _ h4,
      read_u16-be16 t.speed _ hs,
    )
unmarshal-wire (want_heartbeat i) rest h =
    unfold unmarshal_want_heartbeat in simp (read_u8-cons, read_u32-be32 i rest h)
unmarshal-wire (i_am_camera r m l) rest (hr, hm, hl) =
    unfold unmarshal_i_am_camera in
    simp (
      append_assoc,
      read_u8-cons,
      read_u16-be16 r _ hr,
      read_u16-be16 m _ hm,
      read_u16-be16 l rest hl,
    )
unmarshal-wire (i_am_dispatcher rs) rest h =
    unfold unmarshal_i_am_dispatcher in simp (read_u8-cons, read_roads-append rs rest h.0 h.1)

-- A message whose fields fit their wire types is written without an error, and read back from what
-- was written whatever follows it, with exactly that left to read.
pub unmarshal-marshal :
    (m : Message) (rest : Bytes)
    → IsWireable m
    → ((marshal m).1 ≡ none) × (unmarshal_message ((marshal m).0 ++ rest) ≡ ok (m, rest))
unmarshal-marshal m rest h = rw (marshal-wire m h) (refl, unmarshal-wire m rest h)

-- The length of the part that has a length byte.
abbrev pub long_part : Message → ℕ
long_part (error m) = length m
long_part (plate p t) = length p
long_part (ticket t) = length t.plate
long_part (i_am_dispatcher rs) = length rs
long_part _ = 0

-- `Marshal` fails exactly if a text or a list is longer than 255, and then only the type byte was
-- written.
pub marshal_fails_iff :
    (m : Message)
    → ((255 < long_part m) ↔ ((marshal m).1 ≢ none))
      × (((marshal m).1 ≡ none) ⊎ (length (marshal m).0 ≡ 1))
unfolding marshal construct_packet_data
marshal_fails_iff unknown = ground arith
marshal_fails_iff m = ground arith
