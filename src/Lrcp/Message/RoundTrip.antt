-- ===== src/Lrcp/Message/RoundTrip.antt =====
-- 7-line-reversal/lrcp/message.go: what is packed is read back, if its data keeps clear of the faults
-- in the unescaping and in the search for the slash.
pub mod Escapes
use protohackers.Prelude.{
  ℕ, ◌+◌, ◌≤◌, ◌≡◌, refl, Bool, true, false, List, [], ◌∷◌, ◌++◌, append_assoc, append-nil, Option,
  none, some, Result, ok, Bytes, codes, length, arith, take, take_all, ap,
}
use protohackers.Prelude.Int.{ℤ, IsInt32}
use protohackers.Prelude.Decimal.{format_int}
use protohackers.Lrcp.Message.{
  Message, unknown, connect, data_, ack, close, mtu, slash, escape, pack, pack_to_writer, marshal,
  read_buf, read_action, unmarshal_message, unmarshal_connect, unmarshal_data, unmarshal_ack,
  unmarshal_close, unpack_int, unpack_bytes,
}
use protohackers.Lrcp.Message.Numbers.{unpack_int-format_int}
use protohackers.Lrcp.Message.Sizes.{marshal_fits, InRange}
use Escapes.{IsReadable, EndsPlain, unpack_bytes-escape}

-- A message whose text is read back.
abbrev pub IsClean : Message → Type 0
IsClean unknown = ⊥
IsClean (data_ n p d) = IsReadable none d × EndsPlain false d
IsClean _ = Unit

read_buf_lem : (c : ℕ) (r : Bytes) → length (c ∷ r) ≤ mtu → read_buf (c ∷ r) ≡ ok (c ∷ r)
unfolding read_buf
read_buf_lem c r h = rw (take_all mtu (c ∷ r) h)

abbrev tail_of : Message → Bytes
tail_of unknown = []
tail_of (connect n) = format_int n ++ slash ∷ []
tail_of (data_ n p d) = format_int n ++ slash ∷ (format_int p ++ slash ∷ (escape d ++ slash ∷ []))
tail_of (ack n l) = format_int n ++ slash ∷ (format_int l ++ slash ∷ [])
tail_of (close n) = format_int n ++ slash ∷ []

-- A nonempty text that fits is read whole.
read_buf_whole :
    (n : ℤ) (r : Bytes)
    → length (format_int n ++ slash ∷ r) ≤ mtu
    → read_buf (format_int n ++ slash ∷ r) ≡ ok (format_int n ++ slash ∷ r)
read_buf_whole n r h = go (format_int n) h
  where
    go :
        (s : Bytes)
        → length (s ++ slash ∷ r) ≤ mtu
        → read_buf (s ++ slash ∷ r) ≡ ok (s ++ slash ∷ r)
    go [] h = read_buf_lem slash r h
    go (c ∷ s) h = read_buf_lem c (s ++ slash ∷ r) h

unmarshal-pack :
    (m : Message)
    → IsClean m
    → InRange m
    → length (tail_of m) ≤ mtu
    → unmarshal_message (pack m) ≡ ok m
unfolding unmarshal_message read_action pack_to_writer
unmarshal-pack unknown h r fits = absurd h
unmarshal-pack (connect n) h r fits =
    unfold unmarshal_connect in simp (read_buf_whole n [] fits, unpack_int-format_int n [] r)
unmarshal-pack (data_ n p d) h r fits =
    unfold unmarshal_data in
    simp (
      append_assoc,
      read_buf_whole n _ fits,
      unpack_int-format_int n _ r.0,
      unpack_int-format_int p _ r.1,
      unpack_bytes-escape d [] h.0 h.1,
    )
unmarshal-pack (ack n l) h r fits =
    unfold unmarshal_ack in
    simp (
      append_assoc,
      read_buf_whole n _ fits,
      unpack_int-format_int n _ r.0,
      unpack_int-format_int l [] r.1,
    )
unmarshal-pack (close n) h r fits =
    unfold unmarshal_close in simp (read_buf_whole n [] fits, unpack_int-format_int n [] r)

length-tail_of : (m : Message) → length (tail_of m) ≤ length (pack m)
unfolding pack_to_writer
length-tail_of unknown = omega arith
length-tail_of (connect n) = omega arith
length-tail_of (data_ n p d) = simp append_assoc (omega arith)
length-tail_of (ack n l) = simp append_assoc (omega arith)
length-tail_of (close n) = omega arith

marshal-eq-pack : (m : Message) (b : Bytes) → marshal m ≡ ok b → b ≡ pack m
unfolding marshal
marshal-eq-pack m b e = ground arith

-- What `Marshal` writes for a message with int32 numbers is read back as that message, if no slash or
-- backslash stands first in its data or behind a backslash, and no backslash stands last.
pub unmarshal_message-marshal :
    (m : Message) (b : Bytes)
    → IsClean m
    → InRange m
    → marshal m ≡ ok b
    → unmarshal_message b ≡ ok m
unmarshal_message-marshal m b h r e =
    let same = marshal-eq-pack m b e in
    let fits = marshal_fits m b r e in
    rw same (unmarshal-pack m h r (omega (arith, length-tail_of m, ap (length {A = ℕ}) same)))
