-- ===== src/Lrcp/Message/Sizes.antt =====
-- 7-line-reversal/lrcp/message.go: `MarshalSize` and the MTU.
use protohackers.Prelude.{
  ◌+◌, ◌≤◌, ◌≡◌, [], ◌∷◌, ◌++◌, ok, Bytes, codes, length, arith, length-append, ◌⊎◌,
}
use protohackers.Prelude.Int.{ℤ, IsInt32}
use protohackers.Prelude.Decimal.{format_int}
use protohackers.Lrcp.Message.{
  Message, unknown, connect, data_, ack, close, mtu, slash, escape, escaped_length, pack,
  pack_to_writer, marshal, marshal_size, digits_of,
}
use protohackers.Lrcp.Message.Numbers.{digits_of-le, length-format_int}
use protohackers.Lrcp.Message.RoundTrip.Escapes.{length-escape}

-- The numbers of a message are int32s.
abbrev pub InRange : Message → Type 0
InRange unknown = Unit
InRange (connect n) = IsInt32 n
InRange (data_ n p d) = IsInt32 n × IsInt32 p
InRange (ack n l) = IsInt32 n × IsInt32 l
InRange (close n) = IsInt32 n

-- The bytes of the fields.
abbrev pub int_field : ℤ → Bytes
int_field n = format_int n ++ slash ∷ []

abbrev pub bytes_field : Bytes → Bytes
bytes_field d = escape d ++ slash ∷ []

length-int_field : (n : ℤ) → IsInt32 n → length (int_field n) ≤ digits_of n + 2
length-int_field n h =
    omega (arith, length-format_int n h, length-append (format_int n) (slash ∷ []))

length-bytes_field : (d : Bytes) → length (bytes_field d) ≡ escaped_length d + 1
length-bytes_field d = omega (arith, length-escape d, length-append (escape d) (slash ∷ []))

-- The estimate counts nine bytes for the name of any action and none for a sign, so it is short by one
-- for a connection with a negative number, which is small.
length-pack :
    (m : Message) → InRange m → (length (pack m) ≤ marshal_size m) ⊎ (length (pack m) ≤ 22)
unfolding pack_to_writer marshal_size
length-pack unknown h = omega arith
length-pack (connect n) h = omega (arith, length-int_field n h, digits_of-le n h)
length-pack (data_ n p d) h = omega (
  arith,
  length-append (codes "/data/" ++ int_field n ++ int_field p) (bytes_field d),
  length-append (codes "/data/" ++ int_field n) (int_field p),
  length-int_field n h.0,
  length-int_field p h.1,
  length-bytes_field d,
)
length-pack (ack n l) h = omega (
  arith,
  length-append (codes "/ack/" ++ int_field n) (int_field l),
  length-int_field n h.0,
  length-int_field l h.1,
)
length-pack (close n) h = omega (arith, length-int_field n h)

-- What `Marshal` accepts is at most `MTU` bytes on the wire.
pub marshal_fits : (m : Message) (b : Bytes) → InRange m → marshal m ≡ ok b → length b ≤ mtu
unfolding marshal
marshal_fits m b h e = ground (arith, length-pack m h)
