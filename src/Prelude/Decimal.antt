-- ===== src/Prelude/Decimal.antt =====
-- Decimal texts of an int32: `fmt`'s `%d`, `strconv.FormatInt(n, 10)` and `strconv.ParseInt(s, 10, 32)`.
use Prim.Native.Nat.{ℕ, zero, suc, ◌+◌, ◌-◌, ◌*◌, ◌/◌, ◌%◌, ◌^◌, ◌≤◌, ◌<◌}
use mathlib.Core.Path.{◌≡◌, refl, ap, ◌∙◌}
use mathlib.Core.Bool.{◌&&◌}
use mathlib.Core.Option.{Option, none, some}
use mathlib.Core.List.{[], ◌∷◌, ◌++◌, append_assoc, append-nil, concat-ne-nil}
use mathlib.Core.Logic.{◌≢◌}
use native.Mathlib.Omega.{arith}
use native.Mathlib.Nat.{pow-suc}
use protohackers.Prelude.Tests.{ltb, leb, ◌==◌, if◌then◌else◌}
use protohackers.Prelude.Lists.{Bytes, All, All-append, length, length-append}
use protohackers.Prelude.Int.{ℤ, pos, negsuc, IsInt32}

abbrev pub IsDigit : ℕ → Type 0
IsDigit c = (b'0' ≤ c) × (c ≤ b'9')

-- At most `f` digits. Ten are enough below 10 ^ 10, and so for an int32.
unfoldable pub digits : ℕ → ℕ → Bytes
digits zero n = []
digits (suc f) n =
    let more = digits f (n / 10) ++ (b'0' + n % 10) ∷ [] in
    if ltb n 10 then (b'0' + n) ∷ [] else more

unfoldable pub format_int : ℤ → Bytes
format_int (pos n) = digits 10 n
format_int (negsuc n) = b'-' ∷ digits 10 (n + 1)

unfoldable pub read_digits : ℕ → Bytes → Option ℕ
read_digits n [] = some n
read_digits n (c ∷ s) =
    if leb b'0' c && leb c b'9' then read_digits (n * 10 + (c - b'0')) s else none

abbrev pub fit_pos : Option ℕ → Option ℤ
fit_pos none = none
fit_pos (some n) = if ltb n (2 ^ 31) then some (pos n) else none

abbrev pub fit_neg : Option ℕ → Option ℤ
fit_neg none = none
fit_neg (some zero) = some (pos 0)
fit_neg (some (suc n)) = if ltb n (2 ^ 31) then some (negsuc n) else none

-- An empty run of digits is a syntax error.
unfoldable pub parse_unsigned : Bytes → Option ℕ
unfolding read_digits
parse_unsigned [] = none
parse_unsigned (c ∷ s) = read_digits 0 (c ∷ s)

-- `none` is an error, of syntax or of range.
unfoldable pub parse_int32 : Bytes → Option ℤ
parse_int32 [] = none
parse_int32 (c ∷ s) =
    if c == b'-'
    then fit_neg (parse_unsigned s)
    else if c == b'+'
    then fit_pos (parse_unsigned s)
    else fit_pos (parse_unsigned (c ∷ s))

pub digits-IsDigit : (f n : ℕ) → All IsDigit (digits f n)
unfolding digits
digits-IsDigit zero n = tt
digits-IsDigit (suc f) n = ground (
  arith,
  All-append IsDigit (digits f (n / 10)) ((b'0' + n % 10) ∷ []) (digits-IsDigit f (n / 10)),
)

pub length-digits-le : (f n : ℕ) → length (digits f n) ≤ f
unfolding digits
length-digits-le zero n = omega arith
length-digits-le (suc f) n =
    ground
      (arith, length-digits-le f (n / 10), length-append (digits f (n / 10)) ((b'0' + n % 10) ∷ []))

pub digits-ne-nil : (f n : ℕ) → digits (suc f) n ≢ []
unfolding digits
digits-ne-nil f n h = ground (arith, concat-ne-nil (b'0' + n % 10) (digits f (n / 10)))

read_digits-digits :
    (f n : ℕ) (rest : Bytes) → n < 10 ^ f → read_digits 0 (digits f n ++ rest) ≡ read_digits n rest
unfolding read_digits digits
read_digits-digits zero n rest h = ap (λ (t : ℕ). read_digits t rest) (omega arith)
read_digits-digits (suc f) n rest h =
    let h' : n < 10 ^ f * 10 = (rw (← pow-suc) h) in
    ground (
      arith,
      h',
      read_digits-digits f (n / 10) ((b'0' + n % 10) ∷ rest),
      append_assoc (digits f (n / 10)) ((b'0' + n % 10) ∷ []) rest,
    )

parse_unsigned-read_digits : (s : Bytes) → s ≢ [] → parse_unsigned s ≡ read_digits 0 s
unfolding parse_unsigned
parse_unsigned-read_digits [] h = absurd (h refl)
parse_unsigned-read_digits (c ∷ s) h = refl

pub parse_unsigned-digits : (f n : ℕ) → n < 10 ^ suc f → parse_unsigned (digits (suc f) n) ≡ some n
unfolding read_digits
parse_unsigned-digits f n h =
    parse_unsigned-read_digits (digits (suc f) n) (digits-ne-nil f n)
    ∙ (rw (← append-nil (digits (suc f) n)) (read_digits-digits (suc f) n [] h))

parse_int32_of_digits :
    (s : Bytes) → s ≢ [] → All IsDigit s → parse_int32 s ≡ fit_pos (parse_unsigned s)
unfolding parse_int32
parse_int32_of_digits [] ne d = absurd (ne refl)
parse_int32_of_digits (c ∷ s) ne d = ground arith

-- Every int32 is read back from its text.
pub parse_int32-format_int : (a : ℤ) → IsInt32 a → parse_int32 (format_int a) ≡ some a
unfolding format_int parse_int32
parse_int32-format_int (pos n) h =
    parse_int32_of_digits (digits 10 n) (digits-ne-nil 9 n) (digits-IsDigit 10 n)
    ∙ rw (parse_unsigned-digits 9 n (omega arith)) (ground arith)
parse_int32-format_int (negsuc n) h =
    rw (parse_unsigned-digits 9 (n + 1) (omega arith)) (ground arith)
