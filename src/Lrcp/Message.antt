-- ===== src/Lrcp/Message.antt =====
-- 7-line-reversal/lrcp/message.go and util/number.go. A writer is the bytes written so far; a reader
-- holds the bytes of one datagram that are still to come.
pub mod Numbers
pub mod RoundTrip
pub mod Sizes
use protohackers.Prelude.{
  ℕ, zero, suc, ◌+◌, ◌-◌, ◌/◌, Bool, true, false, not, ◌&&◌, ◌||◌, List, [], ◌∷◌, ◌++◌, Option,
  none, some, Result, ok, err, ◌>>=◌, Bytes, bytes_eq, codes, length, take, drop, ltb, ◌==◌,
  if◌then◌else◌,
}
use protohackers.Prelude.Int.{ℤ, pos, negsuc}
use protohackers.Prelude.Decimal.{format_int, parse_int32}

abbrev pub mtu : ℕ
mtu = 999

abbrev pub action_max_length : ℕ
action_max_length = 9

abbrev pub slash : ℕ
slash = b'/'

abbrev pub backslash : ℕ
backslash = b'\\'

pub data Error : Type 0 where
  message_too_large message_invalid eof bad_number unknown_action : Error

pub data Message : Type 0 where
  unknown : Message
  connect : ℤ → Message
  data_ : ℤ → ℤ → Bytes → Message
  ack : ℤ → ℤ → Message
  close : ℤ → Message

abbrev pub session_number : Message → ℤ
session_number unknown = pos 0
session_number (connect n) = n
session_number (data_ n p d) = n
session_number (ack n l) = n
session_number (close n) = n

-- `for val != 0 { val /= 10; count++ }`, ten rounds at most for an int32. Go's division of a negative
-- number is that of its absolute value.
count_digits : ℕ → ℕ → ℕ
count_digits zero val = 0
count_digits (suc f) val = let rest = count_digits f (val / 10) in if val == 0 then 0 else suc rest

abbrev pub abs : ℤ → ℕ
abs (pos n) = n
abs (negsuc n) = n + 1

unfoldable pub digits_of : ℤ → ℕ
unfolding count_digits
digits_of val = if abs val == 0 then 1 else count_digits 10 (abs val)

-- `dataLen++` for each byte that is escaped.
unfoldable pub escaped_length : Bytes → ℕ
escaped_length [] = 0
escaped_length (v ∷ vs) = (if (v == slash) || (v == backslash) then 2 else 1) + escaped_length vs

unfoldable pub marshal_size : Message → ℕ
marshal_size unknown = 0
marshal_size (connect n) = 9 + digits_of n + 1
marshal_size (data_ n p d) = 9 + digits_of n + 1 + digits_of p + 1 + escaped_length d + 1
marshal_size (ack n l) = 9 + digits_of n + 1 + digits_of l + 1
marshal_size (close n) = 9 + digits_of n + 1

-- The arguments of `packToWriter`.
pub data Field : Type 0 where
  int : ℤ → Field
  bytes : Bytes → Field

unfoldable pub escape : Bytes → Bytes
escape [] = []
escape (c ∷ cs) =
    (if (c == backslash) || (c == slash) then backslash ∷ c ∷ [] else c ∷ []) ++ escape cs

unfoldable pub pack_to_writer : Bytes → List Field → Bytes
pack_to_writer w [] = w
pack_to_writer w (int n ∷ fs) = pack_to_writer (w ++ (format_int n ++ slash ∷ [])) fs
pack_to_writer w (bytes b ∷ fs) = pack_to_writer (w ++ (escape b ++ slash ∷ [])) fs

abbrev pub pack : Message → Bytes
pack unknown = []
pack (connect n) = pack_to_writer (codes "/connect/") (int n ∷ [])
pack (data_ n p d) = pack_to_writer (codes "/data/") (int n ∷ int p ∷ bytes d ∷ [])
pack (ack n l) = pack_to_writer (codes "/ack/") (int n ∷ int l ∷ [])
pack (close n) = pack_to_writer (codes "/close/") (int n ∷ [])

unfoldable pub marshal : Message → Result Error Bytes
marshal m = if ltb mtu (marshal_size m) then err message_too_large else ok (pack m)

abbrev shift : Option ℕ → Option ℕ
shift none = none
shift (some i) = some (suc i)

-- The index of the first slash that no backslash stands before; the first argument is whether the
-- byte before is a backslash.
unfoldable pub next_slash_from : Bool → Bytes → Option ℕ
next_slash_from escaped [] = none
next_slash_from escaped (v ∷ vs) =
    let later = shift (next_slash_from (v == backslash) vs) in
    if (v == slash) && not escaped then some 0 else later

unfoldable pub next_slash : Bytes → Option ℕ
unfolding next_slash_from
next_slash buf = next_slash_from false buf

-- `idx > 0 && curBuf[idx-1] != '\\\\'`
abbrev pub is_other : Option ℕ → Bool
is_other none = false
is_other (some c) = not (c == backslash)

-- The loop that drops a backslash unless it stands first or behind a backslash; the first argument is
-- the byte before.
unfoldable pub unescape_from : Option ℕ → Bytes → Bytes
unescape_from prev [] = []
unescape_from prev (v ∷ vs) =
    let rest = unescape_from (some v) vs in
    if (v == backslash) && is_other prev then rest else v ∷ rest

-- `unpackFromReader`, one target at a time: a field of the buffer, and the buffer behind its slash.
unfoldable pub next_field : Bytes → Result Error (Bytes × Bytes)
next_field buf = elim (next_slash buf) [
  | none ↦ err message_invalid
  | some i ↦ ok (take i buf, drop (i + 1) buf)
]

abbrev pub number : Option ℤ → Result Error ℤ
number none = err bad_number
number (some n) = ok n

unfoldable pub unpack_int : Bytes → Result Error (ℤ × Bytes)
unpack_int buf = do (f, rest) ← next_field buf; n ← number (parse_int32 f); ok (n, rest)

unfoldable pub unpack_bytes : Bytes → Result Error (Bytes × Bytes)
unpack_bytes buf = do (f, rest) ← next_field buf; ok (unescape_from none f, rest)

-- `r.Read` of at most `MTU` bytes.
unfoldable pub read_buf : Bytes → Result Error Bytes
read_buf [] = err eof
read_buf (c ∷ r) = ok (take mtu (c ∷ r))

-- All of the buffer must be used.
abbrev pub at_end : Message → Bytes → Result Error Message
at_end m [] = ok m
at_end m (c ∷ buf) = err message_invalid

unfoldable pub unmarshal_connect : Bytes → Result Error Message
unmarshal_connect r = do buf ← read_buf r; (n, rest) ← unpack_int buf; at_end (connect n) rest

unfoldable pub unmarshal_data : Bytes → Result Error Message
unmarshal_data r = do
  buf ← read_buf r
  (n, buf1) ← unpack_int buf
  (p, buf2) ← unpack_int buf1
  (d, rest) ← unpack_bytes buf2
  at_end (data_ n p d) rest

unfoldable pub unmarshal_ack : Bytes → Result Error Message
unmarshal_ack r = do
  buf ← read_buf r
  (n, buf1) ← unpack_int buf
  (l, rest) ← unpack_int buf1
  at_end (ack n l) rest

unfoldable pub unmarshal_close : Bytes → Result Error Message
unmarshal_close r = do buf ← read_buf r; (n, rest) ← unpack_int buf; at_end (close n) rest

-- The loop that reads the action, byte by byte: `room` bytes more at most, up to `slashes` slashes.
unfoldable pub read_action : ℕ → ℕ → Bytes → Result Error (Bytes × Bytes)
read_action zero slashes r = ok ([], r)
read_action (suc room) zero r = ok ([], r)
read_action (suc room) (suc slashes) [] = err eof
read_action (suc room) (suc slashes) (c ∷ r) = do
  (action, r') ← read_action room (if c == slash then slashes else suc slashes) r
  ok (c ∷ action, r')

unfoldable pub unmarshal_message : Bytes → Result Error Message
unmarshal_message reader = do
  (action, r) ← read_action action_max_length 2 reader
  if bytes_eq action (codes "/connect/")
      then unmarshal_connect r
      else if bytes_eq action (codes "/data/")
      then unmarshal_data r
      else if bytes_eq action (codes "/ack/")
      then unmarshal_ack r
      else if bytes_eq action (codes "/close/")
      then unmarshal_close r
      else err unknown_action
