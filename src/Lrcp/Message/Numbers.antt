-- ===== src/Lrcp/Message/Numbers.antt =====
-- 7-line-reversal/lrcp/message.go: fields and their slashes, and the decimal fields.
use protohackers.Prelude.{
  ℕ, zero, suc, ◌+◌, ◌≤◌, ◌<◌, ◌^◌, ◌≡◌, refl, ap, ◌∙◌, ◌/◌, ◌%◌, ◌*◌, Bool, true, false, [], ◌∷◌,
  ◌++◌, some, ok, Bytes, length, drop, arith, ◌==◌, All, length-append, take-length-append,
}
use native.Mathlib.Numerals.{add-one}
use native.Mathlib.Decide.{dec_lt}
use native.Mathlib.Nat.{pow-suc}
use protohackers.Prelude.Int.{ℤ, pos, negsuc, IsInt32}
use protohackers.Prelude.Decimal.{
  IsDigit, digits, digits-IsDigit, length-digits-le, format_int, parse_int32-format_int,
}
use protohackers.Lrcp.Message.{
  slash, backslash, next_slash, next_slash_from, next_field, unpack_int, count_digits, digits_of,
  abs,
}

-- No slash ends the field before its end; `e` tells that a backslash stands before it.
abbrev pub IsClear : Bool → Bytes → Type 0
IsClear e [] = e ≡ false
IsClear e (v ∷ vs) = (v ≡ slash → e ≡ true) × IsClear (v == backslash) vs

next_slash_from-append :
    (e : Bool) (s rest : Bytes)
    → IsClear e s
    → next_slash_from e (s ++ slash ∷ rest) ≡ some (length s)
unfolding next_slash_from
next_slash_from-append e [] rest h = ground arith
next_slash_from-append e (v ∷ vs) rest (h, hs) =
    ground (arith, next_slash_from-append (v == backslash) vs rest hs)

drop_one_more : (s : Bytes) (c : ℕ) (rest : Bytes) → drop (length s + 1) (s ++ c ∷ rest) ≡ rest
drop_one_more s c rest = rw add-one (after s)
  where
    after : (s : Bytes) → drop (suc (length s)) (s ++ c ∷ rest) ≡ rest
    after [] = refl
    after (x ∷ xs) = after xs

pub next_field-append :
    (s rest : Bytes) → IsClear false s → next_field (s ++ slash ∷ rest) ≡ ok (s, rest)
unfolding next_field next_slash
next_field-append s rest h = ground (
  arith,
  next_slash_from-append false s rest h,
  take-length-append s (slash ∷ rest),
  drop_one_more s slash rest,
)

digits-IsClear : (s : Bytes) → All IsDigit s → IsClear false s
digits-IsClear [] h = refl
digits-IsClear (v ∷ vs) (h, hs) =
    let e : (v == backslash) ≡ false = ground arith in
    (λ p. ground arith, rw e (digits-IsClear vs hs))

format_int-IsClear : (n : ℤ) → IsClear false (format_int n)
unfolding format_int
format_int-IsClear (pos n) = digits-IsClear (digits 10 n) (digits-IsDigit 10 n)
format_int-IsClear (negsuc n) =
    (λ p. ground arith, digits-IsClear (digits 10 (n + 1)) (digits-IsDigit 10 (n + 1)))

pub unpack_int-format_int :
    (n : ℤ) (rest : Bytes) → IsInt32 n → unpack_int (format_int n ++ slash ∷ rest) ≡ ok (n, rest)
unfolding unpack_int
unpack_int-format_int n rest h =
    rw (next_field-append (format_int n) rest (format_int-IsClear n), parse_int32-format_int n h)
      refl

count_digits-zero : (f : ℕ) → count_digits f 0 ≡ 0
unfolding count_digits
count_digits-zero zero = refl
count_digits-zero (suc f) = refl

count_digits-length : (f n : ℕ) → n < 10 ^ f → 0 < n → count_digits f n ≡ length (digits f n)
unfolding count_digits digits
count_digits-length zero n h p = absurd (omega arith)
count_digits-length (suc f) n h p =
    let h' : n < 10 ^ f * 10 = (rw (← pow-suc) h) in
    elim (dec_lt n 10) [
      | yes q ↦
          let e : n / 10 ≡ 0 = (omega arith) in
          let e' = ap (count_digits f) e ∙ count_digits-zero f in ground arith
      | no q ↦ ground (
        arith,
        count_digits-length f (n / 10),
        length-append (digits f (n / 10)) ((b'0' + n % 10) ∷ []),
      )
    ]

-- `Digits` counts the digits that are printed.
pub digits_of-length : (a : ℤ) → IsInt32 a → digits_of a ≡ length (digits 10 (abs a))
unfolding digits_of
digits_of-length (pos zero) h = unfold digits in refl
digits_of-length (pos (suc n)) h = ground (arith, count_digits-length 10 (suc n))
digits_of-length (negsuc n) h = ground (arith, count_digits-length 10 (n + 1))

pub digits_of-le : (a : ℤ) → IsInt32 a → digits_of a ≤ 10
digits_of-le a h = omega (arith, digits_of-length a h, length-digits-le 10 (abs a))

pub length-format_int : (a : ℤ) → IsInt32 a → length (format_int a) ≤ digits_of a + 1
unfolding format_int
length-format_int (pos n) h = omega (arith, digits_of-length (pos n) h)
length-format_int (negsuc n) h = omega (arith, digits_of-length (negsuc n) h)
