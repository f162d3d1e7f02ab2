-- ===== src/Prime/Answers.antt =====
-- 1-prime-time: requests for integers, and what they are answered with.
use protohackers.Prelude.{
  bytes_eq, ◌≢◌, sym, All-append, ℕ, zero, suc, ◌+◌, ◌-◌, ◌%◌, ◌^◌, ◌≤◌, ◌<◌, ◌≡◌, refl, ap, ◌∙◌,
  Bool, false, ◌||◌, ◌&&◌, not, List, [], ◌∷◌, ◌++◌, append-nil, some, ok, Bytes, codes, All, arith,
  map, ltb, ◌==◌,
}
use protohackers.Prelude.Int.{ℤ, pos, negsuc}
use protohackers.Prelude.Decimal.{
  digits, IsDigit, digits-IsDigit, digits-ne-nil, parse_unsigned, parse_unsigned-digits,
}
use protohackers.Prelude.TextLines.{HasNoNewline, unlines}
use protohackers.Prime.{Library, int, big_int, signed, unmarshal_json, handler, response, serve}
use protohackers.Prime.Lines.{until_refused, answers_to, end_line, serve-unlines}

-- Whether one of 2, …, d + 1 divides the number.
abbrev pub has_divisor : ℕ → ℕ → Bool
has_divisor zero n = false
has_divisor (suc d) n = n % (d + 2) == 0 || has_divisor d n

-- A prime is above 1, and none of 2, …, n - 1 divides it.
abbrev pub is_prime : ℤ → Bool
is_prime (pos n) = ltb 1 n && not (has_divisor (n - 2) n)
is_prime (negsuc n) = false

abbrev pub IsBelow64Bits : ℤ → Type 0
IsBelow64Bits (pos n) = n < 2 ^ 64
IsBelow64Bits (negsuc n) = n + 1 < 2 ^ 64

abbrev pub decimal : ℤ → Bytes
decimal (pos n) = digits 20 n
decimal (negsuc n) = b'-' ∷ digits 20 (n + 1)

abbrev pub request : ℤ → Bytes
request z = codes "{\"method\":\"isPrime\",\"number\":" ++ decimal z ++ b'}' ∷ []

abbrev pub responses : List ℤ → Bytes
responses [] = []
responses (z ∷ zs) = response (is_prime z) ++ responses zs

not_null : (c : ℕ) (s : Bytes) → c ≤ b'9' → bytes_eq (c ∷ s) (codes "null") ≡ false
not_null c s le = ground arith

big_int-digits : (s : Bytes) → s ≢ [] → All IsDigit s → big_int s ≡ signed pos (parse_unsigned s)
unfolding big_int
big_int-digits [] ne d = absurd (ne refl)
big_int-digits (c ∷ s) ne d = ground arith

digits_not_null : (s : Bytes) → s ≢ [] → All IsDigit s → bytes_eq s (codes "null") ≡ false
digits_not_null [] ne d = absurd (ne refl)
digits_not_null (c ∷ s) ne (digit, d) = not_null c s digit.1

-- An integer is read back from its decimal text.
unmarshal_json-decimal :
    (lib : Library) (z : ℤ) → IsBelow64Bits z → unmarshal_json lib (decimal z) ≡ ok (some (int z))
unfolding unmarshal_json big_int
unmarshal_json-decimal lib (pos n) below =
    rw
      (
        digits_not_null (digits 20 n) (digits-ne-nil 19 n) (digits-IsDigit 20 n),
        big_int-digits (digits 20 n) (digits-ne-nil 19 n) (digits-IsDigit 20 n),
        parse_unsigned-digits 19 n (omega arith),
      )
      refl
unmarshal_json-decimal lib (negsuc n) below =
    rw (parse_unsigned-digits 19 (n + 1) (omega arith)) (ground arith)

digit_is_no_newline : (s : Bytes) → All IsDigit s → HasNoNewline s
digit_is_no_newline [] d = tt
digit_is_no_newline (c ∷ s) (digit, d) = ground (arith, digit_is_no_newline s d)

decimal-HasNoNewline : (z : ℤ) → HasNoNewline (decimal z)
decimal-HasNoNewline (pos n) = digit_is_no_newline (digits 20 n) (digits-IsDigit 20 n)
decimal-HasNoNewline (negsuc n) =
    ground (arith, digit_is_no_newline (digits 20 (n + 1)) (digits-IsDigit 20 (n + 1)))

pub request-HasNoNewline : (z : ℤ) → HasNoNewline (request z)
request-HasNoNewline z =
    let no_newline = λ (c : ℕ). c ≢ 10 in
    All-append no_newline (codes "{\"method\":\"isPrime\",\"number\":") (decimal z ++ b'}' ∷ [])
      (ground arith)
      (All-append no_newline (decimal z) (b'}' ∷ []) (decimal-HasNoNewline z) (ground arith))

module _ (lib : Library)
    (decoded : (z : ℤ)
      → lib.fields (end_line (request z)) ≡ some (some (codes "isPrime"), some (decimal z)))
    (exact : (z : ℤ) → IsBelow64Bits z → lib.probably_prime z ≡ is_prime z) where
  handler-request :
      (z : ℤ) → IsBelow64Bits z → handler lib (end_line (request z)) ≡ ok (response (is_prime z))
  unfolding handler
  handler-request z below = rw (decoded z, unmarshal_json-decimal lib z below, exact z below) refl

  answers_to-requests :
      (zs : List ℤ)
      → All IsBelow64Bits zs
      → until_refused (answers_to lib (map end_line (map request zs))) ≡ responses zs
  answers_to-requests [] below = refl
  answers_to-requests (z ∷ zs) (first, below) =
      rw (handler-request z first, answers_to-requests zs below) refl

  requests-HasNoNewline : (zs : List ℤ) → All HasNoNewline (map request zs)
  requests-HasNoNewline [] = tt
  requests-HasNoNewline (z ∷ zs) = (request-HasNoNewline z, requests-HasNoNewline zs)

  -- With a library that finds the method and the number in a request's text, and whose test is exact for
  -- integers below 2^64, as that of Go is: a client sends requests for integers below 2^64 in absolute
  -- value, each on a line, and is answered for each, in order, whether it is a prime; nothing else is
  -- written.
  pub primes_answered :
      (zs : List ℤ) → All IsBelow64Bits zs → serve lib (unlines (map request zs)) ≡ responses zs
  primes_answered zs below =
      ap (serve lib) (sym (append-nil (unlines (map request zs))))
      ∙ serve-unlines lib (map request zs) [] (requests-HasNoNewline zs) tt
      ∙ ap (λ (reqs : List Bytes). until_refused (answers_to lib reqs))
          (append-nil (map end_line (map request zs)))
      ∙ answers_to-requests zs below
