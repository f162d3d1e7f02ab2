-- ===== src/Lrcp/Message/RoundTrip/Escapes.antt =====
-- 7-line-reversal/lrcp/message.go: the escapes of the data field.
use protohackers.Prelude.{
  ℕ, ◌+◌, ◌≡◌, ◌↔◌, refl, ap, Bool, true, false, not, ◌&&◌, ◌||◌, [], ◌∷◌, ◌++◌, Option, none, some,
  ok, Bytes, length, arith, ◌==◌, if◌then◌else◌,
}
use protohackers.Lrcp.Message.{
  slash, backslash, escape, escaped_length, unescape_from, is_other, unpack_bytes,
}
use protohackers.Lrcp.Message.Numbers.{IsClear, next_field-append}

abbrev pub is_special : ℕ → Bool
is_special c = (c == backslash) || (c == slash)

-- No slash or backslash stands first or behind a backslash.
abbrev pub IsReadable : Option ℕ → Bytes → Type 0
IsReadable prev [] = Unit
IsReadable prev (c ∷ cs) = (is_special c ≡ true → is_other prev ≡ true) × IsReadable (some c) cs

-- How many escaping backslashes `unescape_from` takes for data.
kept : Option ℕ → Bytes → ℕ
kept prev [] = 0
kept prev (c ∷ cs) = (if is_special c && not (is_other prev) then 1 else 0) + kept (some c) cs

unescape_from-escape :
    (prev : Option ℕ) (d : Bytes) → IsReadable prev d → unescape_from prev (escape d) ≡ d
unfolding unescape_from escape
unescape_from-escape prev [] h = refl
unescape_from-escape prev (c ∷ cs) (h, hs) = ground (arith, unescape_from-escape (some c) cs hs)

length-unescape_from :
    (prev : Option ℕ) (d : Bytes) → length (unescape_from prev (escape d)) ≡ length d + kept prev d
unfolding unescape_from escape kept
length-unescape_from prev [] = omega arith
length-unescape_from prev (c ∷ cs) = ground (arith, length-unescape_from (some c) cs)

kept-IsReadable : (prev : Option ℕ) (d : Bytes) → kept prev d ≡ 0 → IsReadable prev d
unfolding kept
kept-IsReadable prev [] h = tt
kept-IsReadable prev (c ∷ cs) h = (λ s. ground arith, kept-IsReadable (some c) cs (omega arith))

-- Unescaping gives the data back exactly if no slash or backslash stands first in it or behind a
-- backslash.
pub unescape-escape_iff : (d : Bytes) → (unescape_from none (escape d) ≡ d) ↔ IsReadable none d
unescape-escape_iff d = (
  λ e. kept-IsReadable none d (omega (arith, length-unescape_from none d, ap (length {A = ℕ}) e)),
  unescape_from-escape none d,
)

-- The last byte is no backslash.
abbrev pub EndsPlain : Bool → Bytes → Type 0
EndsPlain e [] = e ≡ false
EndsPlain e (c ∷ cs) = EndsPlain (c == backslash) cs

escape-IsClear : (e : Bool) (d : Bytes) → EndsPlain e d → IsClear e (escape d)
unfolding escape
escape-IsClear e [] h = h
escape-IsClear e (c ∷ cs) h = ground (arith, escape-IsClear (c == backslash) cs h)

pub length-escape : (d : Bytes) → length (escape d) ≡ escaped_length d
unfolding escape escaped_length
length-escape [] = refl
length-escape (c ∷ cs) = ground (arith, length-escape cs)

pub unpack_bytes-escape :
    (d rest : Bytes)
    → IsReadable none d
    → EndsPlain false d
    → unpack_bytes (escape d ++ slash ∷ rest) ≡ ok (d, rest)
unfolding unpack_bytes
unpack_bytes-escape d rest h h' =
    rw
      (next_field-append (escape d) rest (escape-IsClear false d h'), unescape_from-escape none d h)
      refl
