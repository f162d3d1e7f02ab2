-- ===== src/Isl/Toys.antt =====
-- 8-insecure-sockets-layer/main.go: the toys of a line, and the one with the most copies. `sort.Slice` is a
-- parameter.
mod Tests
pub mod Decode
pub mod Best
pub mod Writes
pub mod Served
use protohackers.Prelude.{
  ℕ, zero, suc, ◌+◌, List, [], ◌∷◌, Option, none, some, Result, ok, err, ◌>>=◌, Bytes, codes,
  length,
}
use protohackers.Prelude.Int.{ℤ}
use protohackers.Prelude.Decimal.{parse_int32, format_int}
use protohackers.Isl.Slices.{Slice, found, full, ended, read_slice}
use protohackers.Isl.Server.{max_line_length}

pub record Toy : Type 0 where
  pub count : ℤ  -- int32
  pub name : Bytes

pub data Error : Type 0 where
  buffer_full eof bad_count : Error

-- The toy, and those that follow its comma.
abbrev pub named_toy : (Bytes → Result Error (List Toy)) → ℤ → Slice → Result Error (List Toy)
named_toy more count (found name rest) =
    more rest >>= λ toys. ok (record { count = count; name = name } ∷ toys)
named_toy more count (full name rest) = err buffer_full
named_toy more count (ended name) = ok (record { count = count; name = name } ∷ [])

abbrev pub counted_toy :
    (Bytes → Result Error (List Toy)) → Bytes → Option ℤ → Result Error (List Toy)
counted_toy more rest none = err bad_count
counted_toy more rest (some count) = named_toy more count (read_slice max_line_length b',' rest)

abbrev pub after_count : (Bytes → Result Error (List Toy)) → Slice → Result Error (List Toy)
after_count more (found slice rest) = counted_toy more rest (parse_int32 slice)
after_count more (full slice rest) = err buffer_full
after_count more (ended slice) = err eof

-- The loop takes a byte at least in a round, so a length and one is rounds enough; without more, an end of
-- the stream.
unfoldable pub decode_loop : ℕ → Bytes → Result Error (List Toy)
decode_loop zero s = err eof
decode_loop (suc rounds) s = after_count (decode_loop rounds) (read_slice max_line_length b'x' s)

unfoldable pub decode_toys : Bytes → Result Error (List Toy)
decode_toys s = decode_loop (length s + 1) s

-- The three writes.
abbrev pub encode_toy : Toy → List Bytes
encode_toy toy = format_int toy.count ∷ codes "x" ∷ toy.name ∷ []

abbrev pub encode_first : List Toy → List Bytes
encode_first [] = []
encode_first (toy ∷ toys) = encode_toy toy

-- Of an error nothing is written, nor if there are no toys.
abbrev pub answer : (List Toy → List Toy) → Result Error (List Toy) → List Bytes
answer sort (err e) = []
answer sort (ok []) = []
answer sort (ok (toy ∷ toys)) = encode_first (sort (toy ∷ toys))

-- The handler that `main` gives to the server.
unfoldable pub handle_line : (List Toy → List Toy) → Bytes → List Bytes
handle_line sort line = answer sort (decode_toys line)
