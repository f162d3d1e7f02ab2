-- ===== src/Speed/Message.antt =====
-- 6-speed-daemon/message.go. A writer is the bytes written so far, a reader the bytes still to come.
-- A text of Go is its bytes. The `any` values to write are `Field`.
pub mod RoundTrip
pub mod Sound
use protohackers.Prelude.{
  ℕ, zero, suc, ◌+◌, ◌≤◌, ◌<◌, ◌%◌, ◌^◌, Bool, List, [], ◌∷◌, ◌++◌, Option, none, some, Result, ok,
  err, ◌>>=◌, Bytes, length, take, drop, ltb, ◌==◌, if◌then◌else◌, All, IsByte,
}
use protohackers.Prelude.Words.{be16, be32, of_be16, of_be32}

abbrev pub max_byte : ℕ
max_byte = 255

pub data Error : Type 0 where
  eof unexpected_eof invalid_string_length invalid_array_length not_a_camera not_a_dispatcher :
      Error
  already_camera already_dispatcher not_a_valid_request : Error

pub record Ticket : Type 0 where
  pub plate : Bytes
  pub road : ℕ
  pub mile1 : ℕ
  pub timestamp1 : ℕ
  pub mile2 : ℕ
  pub timestamp2 : ℕ
  pub speed : ℕ

pub data Message : Type 0 where
  unknown heartbeat : Message
  error : Bytes → Message
  plate : Bytes → ℕ → Message
  ticket : Ticket → Message
  want_heartbeat : ℕ → Message
  i_am_camera : ℕ → ℕ → ℕ → Message
  i_am_dispatcher : List ℕ → Message

pub data Field : Type 0 where
  u8 u16 u32 : ℕ → Field
  str : Bytes → Field
  u16s : List ℕ → Field

-- The loop over a `[]uint16`.
abbrev pub write_u16s : List ℕ → Bytes
write_u16s [] = []
write_u16s (u ∷ us) = be16 u ++ write_u16s us

-- The bytes that `w` holds in the end, and the error. What was written before an error stays.
unfoldable pub construct_packet_data : Bytes → List Field → Bytes × Option Error
construct_packet_data w [] = (w, none)
construct_packet_data w (u8 n ∷ fs) = construct_packet_data (w ++ n ∷ []) fs
construct_packet_data w (u16 n ∷ fs) = construct_packet_data (w ++ be16 n) fs
construct_packet_data w (u32 n ∷ fs) = construct_packet_data (w ++ be32 n) fs
construct_packet_data w (str s ∷ fs) =
    let rest = construct_packet_data (w ++ (length s % 256) ∷ s) fs in
    if ltb max_byte (length s) then (w, some invalid_string_length) else rest
construct_packet_data w (u16s us ∷ fs) =
    let rest = construct_packet_data (w ++ (length us % 256) ∷ write_u16s us) fs in
    if ltb max_byte (length us) then (w, some invalid_array_length) else rest

-- The arguments of `constructPacketData` in each `Marshal`.
abbrev pub fields : Message → List Field
fields unknown = []
fields (error m) = u8 0x10 ∷ str m ∷ []
fields (plate p t) = u8 0x20 ∷ str p ∷ u32 t ∷ []
fields (ticket t) =
    u8 0x21
    ∷ str t.plate
    ∷ u16 t.road
    ∷ u16 t.mile1
    ∷ u32 t.timestamp1
    ∷ u16 t.mile2
    ∷ u32 t.timestamp2
    ∷ u16 t.speed
    ∷ []
fields (want_heartbeat i) = u8 0x40 ∷ u32 i ∷ []
fields heartbeat = u8 0x41 ∷ []
fields (i_am_camera r m l) = u8 0x80 ∷ u16 r ∷ u16 m ∷ u16 l ∷ []
fields (i_am_dispatcher rs) = u8 0x81 ∷ u16s rs ∷ []

unfoldable pub marshal : Message → Bytes × Option Error
marshal m = construct_packet_data [] (fields m)

-- `io.ReadFull` of `n` bytes.
unfoldable pub read_full : ℕ → Bytes → Result Error (Bytes × Bytes)
read_full n r =
    if ltb (length r) n
    then (if length r == 0 then err eof else err unexpected_eof)
    else ok (take n r, drop n r)

-- `binary.Read` into a uint16, and into a uint32.
abbrev pub to_u16 : Bytes → ℕ
to_u16 (a ∷ b ∷ []) = of_be16 a b
to_u16 _ = 0

abbrev pub to_u32 : Bytes → ℕ
to_u32 (a ∷ b ∷ c ∷ d ∷ []) = of_be32 a b c d
to_u32 _ = 0

unfoldable pub read_u16 : Bytes → Result Error (ℕ × Bytes)
unfolding read_full
read_u16 r = do (b, r') ← read_full 2 r; ok (to_u16 b, r')

unfoldable pub read_u32 : Bytes → Result Error (ℕ × Bytes)
unfolding read_full
read_u32 r = do (b, r') ← read_full 4 r; ok (to_u32 b, r')

-- A length byte.
abbrev pub to_u8 : Bytes → ℕ
to_u8 (a ∷ []) = a
to_u8 _ = 0

unfoldable pub read_u8 : Bytes → Result Error (ℕ × Bytes)
unfolding read_full
read_u8 r = do (b, r') ← read_full 1 r; ok (to_u8 b, r')

-- `for i := range arr`, over `n` elements.
unfoldable pub read_u16s : ℕ → Bytes → Result Error (List ℕ × Bytes)
read_u16s zero r = ok ([], r)
read_u16s (suc n) r = do (u, r') ← read_u16 r; (us, r'') ← read_u16s n r'; ok (u ∷ us, r'')

-- The cases `*string` and `*[]uint16` of `extractPacketData`.
unfoldable pub read_str : Bytes → Result Error (Bytes × Bytes)
unfolding read_full
read_str r = do (n, r') ← read_u8 r; read_full n r'

unfoldable pub read_roads : Bytes → Result Error (List ℕ × Bytes)
read_roads r = do (n, r') ← read_u8 r; read_u16s n r'

-- The `Unmarshaler` methods: `extractPacketData` on the pointers to their fields, in order.
unfoldable pub unmarshal_error : Bytes → Result Error (Message × Bytes)
unmarshal_error r = do (m, r') ← read_str r; ok (error m, r')

unfoldable pub unmarshal_plate : Bytes → Result Error (Message × Bytes)
unmarshal_plate r = do (p, r1) ← read_str r; (t, r2) ← read_u32 r1; ok (plate p t, r2)

unfoldable pub unmarshal_ticket : Bytes → Result Error (Message × Bytes)
unmarshal_ticket r = do
  (p, r1) ← read_str r
  (road, r2) ← read_u16 r1
  (m1, r3) ← read_u16 r2
  (t1, r4) ← read_u32 r3
  (m2, r5) ← read_u16 r4
  (t2, r6) ← read_u32 r5
  (s, r7) ← read_u16 r6
  ok (
    ticket (record {
      plate = p;
      road = road;
      mile1 = m1;
      timestamp1 = t1;
      mile2 = m2;
      timestamp2 = t2;
      speed = s;
    }),
    r7,
  )

unfoldable pub unmarshal_want_heartbeat : Bytes → Result Error (Message × Bytes)
unmarshal_want_heartbeat r = do (i, r') ← read_u32 r; ok (want_heartbeat i, r')

unfoldable pub unmarshal_i_am_camera : Bytes → Result Error (Message × Bytes)
unmarshal_i_am_camera r = do
  (road, r1) ← read_u16 r
  (mile, r2) ← read_u16 r1
  (limit, r3) ← read_u16 r2
  ok (i_am_camera road mile limit, r3)

unfoldable pub unmarshal_i_am_dispatcher : Bytes → Result Error (Message × Bytes)
unmarshal_i_am_dispatcher r = do (rs, r') ← read_roads r; ok (i_am_dispatcher rs, r')

-- The `switch` on the type byte; the last case is `default`.
unfoldable pub unmarshaler : ℕ → Bytes → Result Error (Message × Bytes)
unmarshaler c r =
    if c == 0x10
    then unmarshal_error r
    else if c == 0x20
    then unmarshal_plate r
    else if c == 0x21
    then unmarshal_ticket r
    else if c == 0x40
    then unmarshal_want_heartbeat r
    else if c == 0x41
    then ok (heartbeat, r)
    else if c == 0x80
    then unmarshal_i_am_camera r
    else if c == 0x81
    then unmarshal_i_am_dispatcher r
    else ok (unknown, r)

unfoldable pub unmarshal_message : Bytes → Result Error (Message × Bytes)
unmarshal_message r = do (c, r') ← read_u8 r; unmarshaler c r'

-- What the wire format can carry. `Unknown` is not written at all.
abbrev pub FitsStr : Bytes → Type 0
FitsStr s = length s ≤ max_byte

abbrev pub IsU16 : ℕ → Type 0
IsU16 n = n < 2 ^ 16

abbrev pub IsU32 : ℕ → Type 0
IsU32 n = n < 2 ^ 32

abbrev pub IsWireable : Message → Type 0
IsWireable unknown = ⊥
IsWireable heartbeat = Unit
IsWireable (error m) = FitsStr m
IsWireable (plate p t) = FitsStr p × IsU32 t
IsWireable (ticket t) =
    FitsStr t.plate
    × IsU16 t.road
    × IsU16 t.mile1
    × IsU32 t.timestamp1
    × IsU16 t.mile2
    × IsU32 t.timestamp2
    × IsU16 t.speed
IsWireable (want_heartbeat i) = IsU32 i
IsWireable (i_am_camera r m l) = IsU16 r × IsU16 m × IsU16 l
IsWireable (i_am_dispatcher rs) = (length rs ≤ max_byte) × All IsU16 rs
