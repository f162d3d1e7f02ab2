-- ===== src/Means.antt =====
-- 2-means-to-an-end: types.go, utils.go and `handleSession` of main.go, over the bytes of a connection.
mod Tests
pub mod Session
pub mod Bounds
use protohackers.Prelude.{
  ℕ, zero, suc, ◌+◌, ◌/◌, Bool, true, false, ◌&&◌, ◌||◌, List, [], ◌∷◌, ◌++◌, Result, ok, err,
  ◌>>=◌, Bytes, ◌==◌, ltb, if◌then◌else◌, length, take, drop,
}
use protohackers.Prelude.Int.{
  ℤ, pos, negsuc, pos_part, neg_part, ◌+ℤ◌, leb_ℤ, int32_of_bits, bits_of_int32, wrap32,
}
use protohackers.Prelude.Words.{be32, of_be32}

pub data Message : Type 0 where
  insert : (timestamp price : ℤ) → Message
  query : (min_time max_time : ℤ) → Message

pub data Error : Type 0 where
  invalid_message unknown_type short_number same_timestamp unexpected_eof : Error

abbrev pub bytes_to_int32 : Bytes → Result Error ℤ
bytes_to_int32 (a ∷ b ∷ c ∷ d ∷ rest) = ok (int32_of_bits (of_be32 a b c d))
bytes_to_int32 _ = err short_number

abbrev pub int32_to_bytes : ℤ → Bytes
int32_to_bytes n = be32 (bits_of_int32 n)

abbrev pub two_numbers : (ℤ → ℤ → Message) → Bytes → Result Error Message
two_numbers f body = do
  a ← bytes_to_int32 (take 4 body)
  b ← bytes_to_int32 (drop 4 body)
  ok (f a b)

abbrev pub of_type : Bytes → Result Error Message
of_type [] = err invalid_message
of_type (t ∷ body) =
    if t == b'I'
    then two_numbers insert body
    else if t == b'Q'
    then two_numbers query body
    else err unknown_type

unfoldable pub unmarshal_message : Bytes → Result Error Message
unmarshal_message raw = if length raw == 9 then of_type raw else err invalid_message

-- `db`, a map from timestamps to prices, in the order in which a loop over it meets them.
abbrev pub Prices : Type 0
Prices = List (ℤ × ℤ)

abbrev pub eq_ℤ : ℤ → ℤ → Bool
eq_ℤ a b = leb_ℤ a b && leb_ℤ b a

abbrev pub has_price : ℤ → Prices → Bool
has_price t [] = false
has_price t ((u, p) ∷ db) = eq_ℤ t u || has_price t db

-- The loop over the map: `total` and `count`. There are at most 2^32 timestamps, so that the sum of their
-- prices, which are int32s, fits an int of 64 bits.
unfoldable pub sum_prices : ℤ → ℤ → Prices → ℤ × ℕ
sum_prices lo hi [] = (pos 0, 0)
sum_prices lo hi ((t, p) ∷ db) =
    let (total, count) = sum_prices lo hi db in
    if leb_ℤ lo t && leb_ℤ t hi then (p +ℤ total, count + 1) else (total, count)

-- Go's division of integers, by a count: it cuts towards zero.
abbrev pub quotient : ℤ → ℕ → ℤ
quotient (pos n) c = pos (n / c)
quotient (negsuc n) c = elim ((n + 1) / c) [ zero ↦ pos 0 | suc q ↦ negsuc q ]

abbrev pub mean_of : ℤ × ℕ → ℤ
mean_of (total, count) = if ltb 0 count then wrap32 (quotient total count) else pos 0

-- The mean that a query is answered with.
unfoldable pub mean_price : ℤ → ℤ → Prices → ℤ
mean_price lo hi db =
    let mean = mean_of (sum_prices lo hi db) in if leb_ℤ lo hi then mean else pos 0

-- One message: the prices after it, and what is written.
unfoldable pub handle_message : Prices → Message → Result Error (Prices × Bytes)
handle_message db (insert t p) = if has_price t db then err same_timestamp else ok ((t, p) ∷ db, [])
handle_message db (query lo hi) = ok (db, int32_to_bytes (mean_price lo hi db))

-- How a session ends, with what it has written.
pub data Ended : Type 0 where
  closed : Bytes → Ended
  failed : Bytes → Error → Ended

abbrev pub write_before : Bytes → Ended → Ended
write_before w (closed w') = closed (w ++ w')
write_before w (failed w' e) = failed (w ++ w') e

abbrev pub and_then : (Prices → Ended) → Result Error (Prices × Bytes) → Ended
and_then next (err e) = failed [] e
and_then next (ok (db, w)) = write_before w (next db)

-- The loop of `handleSession`; a round takes nine bytes, so that there are no more rounds than bytes.
unfoldable pub session_loop : ℕ → Prices → Bytes → Ended
session_loop zero db s = closed []
session_loop (suc rounds) db [] = closed []
session_loop (suc rounds) db (c ∷ cs) =
    let next = λ (db' : Prices). session_loop rounds db' (drop 9 (c ∷ cs)) in
    let answered =
      and_then next (unmarshal_message (take 9 (c ∷ cs)) >>= λ msg. handle_message db msg) in
    if ltb (length (c ∷ cs)) 9 then failed [] unexpected_eof else answered

unfoldable pub handle_session : Bytes → Ended
handle_session s = session_loop (length s) [] s
