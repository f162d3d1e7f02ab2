-- ===== src/Prime.antt =====
-- 1-prime-time/main.go: the handler, `UnmarshalJSON` of a number, and the loop over a connection.
mod Tests
pub mod Lines
pub mod Answers
use protohackers.Prelude.{
  ℕ, zero, suc, ◌+◌, Bool, true, false, List, [], ◌∷◌, ◌++◌, Option, none, some, Result, ok, err,
  ◌>>=◌, Bytes, codes, bytes_eq, ◌==◌, length, if◌then◌else◌,
}
use protohackers.Prelude.Int.{ℤ, pos, negsuc}
use protohackers.Prelude.Decimal.{parse_unsigned}

-- What `Val` holds, where it is not nil. No code reads the value of a float.
pub data Value : Type 0 where
  int : ℤ → Value
  float : Value

abbrev pub Number : Type 0
Number = Option Value

pub record Request : Type 0 where
  pub method : Option Bytes
  pub number : Option Number

-- `encoding/json` and `math/big`. `fields` is the method of the object in a text, and the text of its
-- number, where they are there and not null; `is_float` is whether `UnmarshalText` of a float succeeds.
pub record Library : Type 0 where
  pub fields : Bytes → Option (Option Bytes × Option Bytes)
  pub is_float : Bytes → Bool
  pub probably_prime : ℤ → Bool

pub data Error : Type 0 where
  bad_json invalid_number invalid_request : Error

abbrev pub negated : ℕ → ℤ
negated zero = pos 0
negated (suc n) = negsuc n

abbrev pub signed : (ℕ → ℤ) → Option ℕ → Option ℤ
signed sign none = none
signed sign (some n) = some (sign n)

-- `UnmarshalText` of an integer, on the texts that are JSON values: these have no other base than ten,
-- no plus and no underscores.
unfoldable pub big_int : Bytes → Option ℤ
big_int [] = none
big_int (c ∷ s) =
    if c == b'-' then signed negated (parse_unsigned s) else signed pos (parse_unsigned (c ∷ s))

abbrev pub or_float : Bool → Option ℤ → Result Error Number
or_float f (some n) = ok (some (int n))
or_float true none = ok (some float)
or_float false none = err invalid_number

unfoldable pub unmarshal_json : Library → Bytes → Result Error Number
unmarshal_json lib text =
    if bytes_eq text (codes "null") then ok none else or_float (lib.is_float text) (big_int text)

-- `json.Unmarshal` into a `Request`.
abbrev pub with_number : Library → Option Bytes → Option Bytes → Result Error Request
with_number lib method none = ok (record { method = method; number = none })
with_number lib method (some text) =
    unmarshal_json lib text >>= λ n. ok (record { method = method; number = some n })

abbrev pub of_fields : Library → Option (Option Bytes × Option Bytes) → Result Error Request
of_fields lib none = err bad_json
of_fields lib (some (method, text)) = with_number lib method text

abbrev pub validate : Option Bytes → Option Number → Result Error Number
validate none number = err invalid_request
validate (some method) none = err invalid_request
validate (some method) (some number) =
    if bytes_eq method (codes "isPrime") then ok number else err invalid_request

abbrev pub check_prime : Library → Number → Bool
check_prime lib (some (int n)) = lib.probably_prime n
check_prime lib (some float) = false
check_prime lib none = false

abbrev pub bool_text : Bool → Bytes
bool_text true = codes "true"
bool_text false = codes "false"

-- `json.Marshal` of a `Response`, and the newline.
abbrev pub response : Bool → Bytes
response prime = codes "{\"method\":\"isPrime\",\"prime\":" ++ bool_text prime ++ b'}' ∷ b'\n' ∷ []

-- The response, or the error; with an error the bytes are those of `invalid`.
unfoldable pub handler : Library → Bytes → Result Error Bytes
handler lib raw = of_fields lib (lib.fields raw) >>= λ req.
    validate req.method req.number >>= λ number. ok (response (check_prime lib number))

abbrev pub invalid : Bytes
invalid = codes "invalid request"

-- `ReadBytes('\n')`: up to the newline and with it, or what there is before the end.
unfoldable pub read_bytes : Bytes → Bytes × Bytes
read_bytes [] = ([], [])
read_bytes (c ∷ r) =
    let (line, rest) = read_bytes r in if c == b'\n' then (c ∷ [], r) else (c ∷ line, rest)

-- What is written for a request, before what the later rounds write.
abbrev pub reply : Bytes → Result Error Bytes → Bytes
reply later (ok res) = res ++ later
reply later (err e) = invalid

-- The loop over a connection whose writes succeed: what is written until it is closed. A round takes a
-- byte at least.
unfoldable pub serve_loop : Library → ℕ → Bytes → Bytes
serve_loop lib zero s = []
serve_loop lib (suc rounds) [] = []
serve_loop lib (suc rounds) (c ∷ s) =
    let (req, rest) = read_bytes (c ∷ s) in
    let later = serve_loop lib rounds rest in reply later (handler lib req)

unfoldable pub serve : Library → Bytes → Bytes
serve lib s = serve_loop lib (length s) s
