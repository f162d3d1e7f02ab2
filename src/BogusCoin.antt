-- ===== src/BogusCoin.antt =====
-- 5-mob-in-the-middle/main.go: the rewriting of Boguscoin addresses in a chat line, and the proxy's loop.
mod Tests
pub mod Forward
pub mod Words
use protohackers.Prelude.{
  ℕ, zero, suc, ◌+◌, ◌-◌, Bool, true, false, ◌&&◌, ◌||◌, List, [], ◌∷◌, ◌++◌, Option, none, some,
  Bytes, length, take, drop, get_elem?, leb, ◌==◌, if◌then◌else◌,
}

abbrev pub is_alnum : ℕ → Bool
is_alnum c =
    (leb b'A' c && leb c b'Z') || ((leb b'a' c && leb c b'z') || (leb b'0' c && leb c b'9'))

-- The inner loop behind a `7`: how far `j` goes past it, and `isBC`.
unfoldable pub scan_address : Bytes → ℕ × Bool
scan_address [] = (0, true)
scan_address (c ∷ r) =
    let (n, b) = scan_address r in
    if c == b' ' then (0, true) else if is_alnum c then (suc n, b) else (0, false)

-- `i == 0 || message[i-1] == ' '`, of the byte before the place.
abbrev pub at_word : Option ℕ → Bool
at_word none = true
at_word (some c) = c == b' '

-- The outer loop, with the byte before the place `i`, and the bytes from `i` on. Every round goes on by
-- a byte at least, so the length of the message is fuel enough.
unfoldable pub replace_loop : Bytes → ℕ → Option ℕ → Bytes → Bytes
replace_loop replace zero prev rest = []
replace_loop replace (suc f) prev [] = []
replace_loop replace (suc f) prev (b ∷ r) =
    let (n, is_bc) = scan_address r in
    let j = suc n in
    let found =
      (if is_bc && (leb 26 j && leb j 35) then replace else take j (b ∷ r))
      ++ replace_loop replace f (get_elem? (b ∷ r) (j - 1)) (drop j (b ∷ r)) in
    let copied = b ∷ replace_loop replace f (some b) r in
    if (b == b'7') && at_word prev then found else copied

unfoldable pub replace_bogus_coin : Bytes → Bytes → Bytes
replace_bogus_coin message replace = replace_loop replace (length message) none message

-- A modifier is a function on lines, one after the other.
abbrev pub modified : List (Bytes → Bytes) → Bytes → Bytes
modified [] message = message
modified (f ∷ fs) message = modified fs (f message)

-- `ReadBytes('\n')` with the newline trimmed, and the rest of the stream; at its end what has no newline
-- is an error.
unfoldable pub read_line : Bytes → Option (Bytes × Bytes)
read_line [] = none
read_line (c ∷ r) = if c == b'\n' then some ([], r) else with_first c (read_line r)
  where
    with_first : ℕ → Option (Bytes × Bytes) → Option (Bytes × Bytes)
    with_first c none = none
    with_first c (some (l, rest)) = some (c ∷ l, rest)

-- A round of `forward`, with what the later rounds write.
abbrev pub round : List (Bytes → Bytes) → (Bytes → Bytes) → Option (Bytes × Bytes) → Bytes
round fs later none = []
round fs later (some (message, rest)) = (modified fs message ++ b'\n' ∷ []) ++ later rest

-- `forward`, up to the end of the stream: what it writes. A round takes a byte at least, so the length of
-- the stream is fuel enough.
unfoldable pub forward_loop : List (Bytes → Bytes) → ℕ → Bytes → Bytes
forward_loop fs zero src = []
forward_loop fs (suc f) src = round fs (forward_loop fs f) (read_line src)

unfoldable pub forward : List (Bytes → Bytes) → Bytes → Bytes
forward fs src = forward_loop fs (length src) src

-- `bogusCoinModifier`
abbrev pub bogus_coin_modifier : Bytes → Bytes → Bytes
bogus_coin_modifier replace message = replace_bogus_coin message replace
