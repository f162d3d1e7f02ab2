-- ===== src/Isl/Toys/Writes.antt =====
-- 8-insecure-sockets-layer/main.go: what the handler writes for a line of bytes is bytes.
use protohackers.Prelude.{
  ℕ, zero, suc, ◌+◌, inl, inr, refl, sym, ap, subst, List, [], ◌∷◌, ◌++◌, Option, none, some,
  Result, ok, err, ◌>>=◌, Bytes, length, All, All-append, IsByte, arith,
}
use protohackers.Prelude.Int.{ℤ, pos, negsuc}
use protohackers.Prelude.Decimal.{format_int, parse_int32, IsDigit, digits-IsDigit}
use protohackers.Isl.Cipher.Chunks.{join}
use protohackers.Isl.Slices.{Slice, found, full, ended, Cuts, read_slice_lem}
use protohackers.Isl.Server.{max_line_length}
use protohackers.Isl.Toys.{
  Toy, Error, named_toy, counted_toy, after_count, decode_loop, decode_toys, encode_first, answer,
  handle_line,
}
use protohackers.Isl.Toys.Best.{HasToy, IsSort}

-- The parts of a slice of bytes are bytes.
abbrev AreBytes : Slice → Type 0
AreBytes (found a rest) = All IsByte a × All IsByte rest
AreBytes (full a rest) = Unit
AreBytes (ended a) = All IsByte a

split_bytes : (a b : Bytes) → All IsByte (a ++ b) → All IsByte a × All IsByte b
split_bytes [] b bytes = (tt, bytes)
split_bytes (c ∷ a) b (h, bytes) = let (ha, hb) = split_bytes a b bytes in ((h, ha), hb)

slice_bytes :
    (room delim : ℕ) (s : Bytes) (r : Slice) → All IsByte s → Cuts room delim s r → AreBytes r
slice_bytes room delim s (found a rest) bytes (_, e) =
    let (ha, hd) = split_bytes a (delim ∷ rest) (subst (All IsByte) e bytes) in (ha, hd.1)
slice_bytes room delim s (full a rest) bytes cuts = tt
slice_bytes room delim s (ended a) bytes (_, e) = subst (All IsByte) e bytes

abbrev HasByteNames : Result Error (List Toy) → Type 0
HasByteNames (err e) = Unit
HasByteNames (ok ts) = (t : Toy) → HasToy t ts → All IsByte t.name

add_toy :
    (count : ℤ) (name : Bytes) (r : Result Error (List Toy))
    → All IsByte name
    → HasByteNames r
    → HasByteNames (r >>= λ toys. ok (record { count = count; name = name } ∷ toys))
add_toy count name (err e) bytes rest = tt
add_toy count name (ok ts) bytes rest = λ t has. elim has [
  | inl same ↦ subst (All IsByte) (ap (λ (u : Toy). u.name) (sym same)) bytes
  | inr later ↦ rest t later
]

named_toy-bytes :
    (more : Bytes → Result Error (List Toy)) (count : ℤ) (r : Slice)
    → ((s : Bytes) → All IsByte s → HasByteNames (more s))
    → AreBytes r
    → HasByteNames (named_toy more count r)
named_toy-bytes more count (found name rest) next (hn, hr) =
    add_toy count name (more rest) hn (next rest hr)
named_toy-bytes more count (full name rest) next bytes = tt
named_toy-bytes more count (ended name) next bytes =
    add_toy count name (ok []) bytes (λ t has. absurd has)

counted_toy-bytes :
    (more : Bytes → Result Error (List Toy)) (rest : Bytes) (o : Option ℤ)
    → ((s : Bytes) → All IsByte s → HasByteNames (more s))
    → All IsByte rest
    → HasByteNames (counted_toy more rest o)
counted_toy-bytes more rest none next bytes = tt
counted_toy-bytes more rest (some count) next bytes =
    named_toy-bytes more count _ next
      (slice_bytes max_line_length b',' rest _ bytes (read_slice_lem max_line_length b',' rest))

after_count-bytes :
    (more : Bytes → Result Error (List Toy)) (r : Slice)
    → ((s : Bytes) → All IsByte s → HasByteNames (more s))
    → AreBytes r
    → HasByteNames (after_count more r)
after_count-bytes more (found slice rest) next (hs, hr) =
    counted_toy-bytes more rest (parse_int32 slice) next hr
after_count-bytes more (full slice rest) next bytes = tt
after_count-bytes more (ended slice) next bytes = tt

decode_loop-bytes : (rounds : ℕ) (s : Bytes) → All IsByte s → HasByteNames (decode_loop rounds s)
unfolding decode_loop
decode_loop-bytes zero s bytes = tt
decode_loop-bytes (suc rounds) s bytes =
    after_count-bytes (decode_loop rounds) _ (λ t h. decode_loop-bytes rounds t h)
      (slice_bytes max_line_length b'x' s _ bytes (read_slice_lem max_line_length b'x' s))

digit_bytes : (s : Bytes) → All IsDigit s → All IsByte s
digit_bytes [] d = tt
digit_bytes (c ∷ s) (h, d) = (omega arith, digit_bytes s d)

format_int-bytes : (n : ℤ) → All IsByte (format_int n)
unfolding format_int
format_int-bytes (pos n) = digit_bytes _ (digits-IsDigit 10 n)
format_int-bytes (negsuc n) = (omega arith, digit_bytes _ (digits-IsDigit 10 (n + 1)))

encode_first-bytes :
    (ts : List Toy)
    → ((t : Toy) → HasToy t ts → All IsByte t.name)
    → All IsByte (join (encode_first ts))
unfolding join
encode_first-bytes [] names = tt
encode_first-bytes (t ∷ ts) names =
    All-append IsByte (format_int t.count) _ (format_int-bytes t.count)
      (omega arith, All-append IsByte t.name [] (names t (inl refl)) tt)

answer-bytes :
    (sort : List Toy → List Toy) (r : Result Error (List Toy))
    → IsSort sort
    → HasByteNames r
    → All IsByte (join (answer sort r))
unfolding join
answer-bytes sort (err e) is_sort names = tt
answer-bytes sort (ok []) is_sort names = tt
answer-bytes sort (ok (toy ∷ toys)) is_sort names =
    encode_first-bytes (sort (toy ∷ toys)) (λ t has. names t ((is_sort.keeps (toy ∷ toys) t).0 has))

pub handle_line-bytes :
    (sort : List Toy → List Toy) (line : Bytes)
    → IsSort sort
    → All IsByte line
    → All IsByte (join (handle_line sort line))
unfolding handle_line decode_toys
handle_line-bytes sort line is_sort bytes =
    answer-bytes sort (decode_loop (length line + 1) line) is_sort
      (decode_loop-bytes (length line + 1) line bytes)
