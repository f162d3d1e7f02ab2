-- ===== src/Prime/Tests.antt =====
-- 1-prime-time: a connection with primes and others, and a request that is refused.
use protohackers.Prelude.{
  ◌+◌, ◌≡◌, refl, ap, List, [], ◌∷◌, ◌++◌, none, some, Bytes, codes, bytes_eq, All, take, drop,
  true, false, map, append_assoc, ◌∙◌, arith, ◌==◌, if◌then◌else◌,
}
use protohackers.Prelude.Int.{ℤ, pos, negsuc}
use protohackers.Prelude.Decimal.{digits, IsDigit, digits-IsDigit, parse_unsigned, read_digits}
use protohackers.Prelude.TextLines.{unlines}
use protohackers.Prime.{
  Library, serve, serve_loop, read_bytes, handler, unmarshal_json, big_int, response, invalid,
}
use protohackers.Prime.Lines.{until_refused, answers_to, end_line, last_request, serve-unlines}
use protohackers.Prime.Answers.{
  is_prime, decimal, request, request-HasNoNewline, responses, primes_answered,
}

abbrev up_to_brace : Bytes → Bytes
up_to_brace [] = []
up_to_brace (c ∷ s) = if c == b'}' then [] else c ∷ up_to_brace s

abbrev prefix : Bytes
prefix = codes "{\"method\":\"isPrime\",\"number\":"

-- It reads the texts of requests only.
abbrev library : Library
library = record {
  fields = λ s.
      if bytes_eq (take 29 s) prefix
      then some (some (codes "isPrime"), some (up_to_brace (drop 29 s)))
      else none;
  is_float = λ _. false;
  probably_prime = is_prime;
}

up_to_brace-digits : (s r : Bytes) → All IsDigit s → up_to_brace (s ++ b'}' ∷ r) ≡ s
up_to_brace-digits [] r d = refl
up_to_brace-digits (c ∷ s) r (digit, d) = ground (arith, up_to_brace-digits s r d)

up_to_brace-decimal : (z : ℤ) (r : Bytes) → up_to_brace (decimal z ++ b'}' ∷ r) ≡ decimal z
up_to_brace-decimal (pos n) r = up_to_brace-digits (digits 20 n) r (digits-IsDigit 20 n)
up_to_brace-decimal (negsuc n) r =
    ap (λ (s : Bytes). b'-' ∷ s)
      (up_to_brace-digits (digits 20 (n + 1)) r (digits-IsDigit 20 (n + 1)))

fields-request :
    (z : ℤ)
    → library.fields (end_line (request z)) ≡ some (some (codes "isPrime"), some (decimal z))
fields-request z =
    let found = λ (text : Bytes). some (some (codes "isPrime"), some (up_to_brace text)) in
    let first : library.fields (end_line (request z)) ≡ found (decimal z ++ b'}' ∷ b'\n' ∷ []) =
      (ap found (append_assoc (decimal z) (b'}' ∷ []) (b'\n' ∷ []))) in
    first
    ∙ ap (λ text. some (some (codes "isPrime"), some text)) (up_to_brace-decimal z (b'\n' ∷ []))

abbrev asked : List ℤ
asked = pos 7 ∷ pos 9 ∷ negsuc 6 ∷ pos 2 ∷ []

serve_run :
    serve library (unlines (map request asked) ++ codes "prime?")
    ≡ response true ++ response false ++ response false ++ response true ++ invalid
unfolding serve serve_loop read_bytes handler unmarshal_json big_int digits parse_unsigned
    read_digits
serve_run = refl

primes_answered_example : serve library (unlines (map request asked)) ≡ responses asked
primes_answered_example =
    primes_answered library fields-request (λ z below. refl) asked (ground arith)

serve-unlines_example :
    serve library (unlines (codes "{}" ∷ request (pos 7) ∷ []) ++ codes "7")
    ≡ until_refused (
        answers_to library
          (map end_line (codes "{}" ∷ request (pos 7) ∷ []) ++ last_request (codes "7")))
serve-unlines_example =
    serve-unlines library (codes "{}" ∷ request (pos 7) ∷ []) (codes "7")
      (ground arith, (request-HasNoNewline (pos 7), tt)) (ground arith)
