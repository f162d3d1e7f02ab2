-- ===== src/Isl/Toys/Decode.antt =====
-- 8-insecure-sockets-layer/main.go: `decodeToys` on the text of a list of toys.
use protohackers.Prelude.{
  ℕ, zero, suc, ◌+◌, ◌≤◌, ◌<◌, ◌≡◌, ◌∙◌, refl, ap, List, [], ◌∷◌, ◌++◌, append_assoc, ok, ◌>>=◌,
  Bytes, length, length-append, All, arith,
}
use protohackers.Prelude.Int.{ℤ, pos, negsuc, IsInt32}
use protohackers.Prelude.Decimal.{
  format_int, IsDigit, digits-IsDigit, length-digits-le, parse_int32-format_int,
}
use protohackers.Isl.Slices.{read_slice, IsWithout, read_slice_found, read_slice_ended}
use protohackers.Isl.Server.{max_line_length}
use protohackers.Isl.Toys.{Toy, decode_loop, decode_toys, named_toy}

abbrev pub toy_text : Toy → Bytes
toy_text toy = format_int toy.count ++ b'x' ∷ toy.name

-- Toys with a comma between them.
abbrev pub toys_text : Toy → List Toy → Bytes
toys_text toy [] = toy_text toy
toys_text toy (next ∷ toys) = toy_text toy ++ b',' ∷ toys_text next toys

-- A name has no comma, and it and a delimiter fit the buffer.
abbrev pub IsToy : Toy → Type 0
IsToy toy = IsInt32 toy.count × IsWithout b',' toy.name × (length toy.name < max_line_length)

digits-IsWithout : (s : Bytes) → All IsDigit s → IsWithout b'x' s
digits-IsWithout [] d = tt
digits-IsWithout (c ∷ s) (h, d) = (λ e. omega (arith, e), digits-IsWithout s d)

format_int-IsWithout :
    (n : ℤ) → IsWithout b'x' (format_int n) × (length (format_int n) < max_line_length)
unfolding format_int
format_int-IsWithout (pos n) =
    (digits-IsWithout _ (digits-IsDigit 10 n), omega (arith, length-digits-le 10 n))
format_int-IsWithout (negsuc n) = (
  (λ e. omega (arith, e), digits-IsWithout _ (digits-IsDigit 10 (n + 1))),
  omega (arith, length-digits-le 10 (n + 1)),
)

-- The count is read, and the name is what is left to read.
count_read :
    (rounds : ℕ) (toy : Toy) (rest : Bytes)
    → IsToy toy
    → decode_loop (suc rounds) (format_int toy.count ++ b'x' ∷ rest)
      ≡ named_toy (decode_loop rounds) toy.count (read_slice max_line_length b',' rest)
unfolding decode_loop
count_read rounds toy rest (int32, _, _) =
    let (without, short) = format_int-IsWithout toy.count in
    rw
      (
        read_slice_found max_line_length b'x' (format_int toy.count) rest without short,
        parse_int32-format_int toy.count int32,
      )
      refl

decode_loop-toys_text :
    (rounds : ℕ) (toy : Toy) (toys : List Toy)
    → All IsToy (toy ∷ toys)
    → length toys < rounds
    → decode_loop rounds (toys_text toy toys) ≡ ok (toy ∷ toys)
decode_loop-toys_text zero toy toys all lt = absurd (omega arith)
decode_loop-toys_text (suc rounds) toy [] (is_toy, _) lt =
    count_read rounds toy toy.name is_toy
    ∙ ap (named_toy (decode_loop rounds) toy.count)
        (read_slice_ended max_line_length b',' toy.name is_toy.1 is_toy.2)
decode_loop-toys_text (suc rounds) toy (next ∷ toys) (is_toy, all) lt =
    let rest = toys_text next toys in
    ap (decode_loop (suc rounds))
      (append_assoc (format_int toy.count) (b'x' ∷ toy.name) (b',' ∷ rest))
    ∙ count_read rounds toy (toy.name ++ b',' ∷ rest) is_toy
    ∙ ap (named_toy (decode_loop rounds) toy.count)
        (read_slice_found max_line_length b',' toy.name rest is_toy.1 is_toy.2)
    ∙ ap (λ r. r >>= λ toys. ok (toy ∷ toys))
        (decode_loop-toys_text rounds next toys all (omega arith))

length-toys_text : (toy : Toy) (toys : List Toy) → length toys ≤ length (toys_text toy toys)
length-toys_text toy [] = omega arith
length-toys_text toy (next ∷ toys) =
    omega
      (arith, length-append (toy_text toy) (b',' ∷ toys_text next toys), length-toys_text next toys)

-- The text of one toy or more is decoded to them, in their order, whatever their counts.
pub decode_toys-toys_text :
    (toy : Toy) (toys : List Toy)
    → All IsToy (toy ∷ toys)
    → decode_toys (toys_text toy toys) ≡ ok (toy ∷ toys)
unfolding decode_toys
decode_toys-toys_text toy toys all =
    decode_loop-toys_text (length (toys_text toy toys) + 1) toy toys all
      (omega (arith, length-toys_text toy toys))
