-- ===== src/Prelude/Words.antt =====
-- Big-endian words: what `encoding/binary` writes and reads with `binary.BigEndian`.
use Prim.Native.Nat.{ℕ, ◌+◌, ◌*◌, ◌/◌, ◌%◌, ◌^◌, ◌<◌}
use mathlib.Core.Path.{◌≡◌}
use mathlib.Core.List.{List, [], ◌∷◌}
use native.Mathlib.Omega.{arith}

abbrev pub be16 : ℕ → List ℕ
be16 n = (n / 256 % 256) ∷ (n % 256) ∷ []

abbrev pub be32 : ℕ → List ℕ
be32 n = (n / 2 ^ 24 % 256) ∷ (n / 2 ^ 16 % 256) ∷ (n / 2 ^ 8 % 256) ∷ (n % 256) ∷ []

abbrev pub of_be16 : ℕ → ℕ → ℕ
of_be16 a b = a * 256 + b

abbrev pub of_be32 : ℕ → ℕ → ℕ → ℕ → ℕ
of_be32 a b c d = a * 2 ^ 24 + b * 2 ^ 16 + c * 2 ^ 8 + d

pub of_be16-be16 : (n : ℕ) → n < 2 ^ 16 → of_be16 (n / 256 % 256) (n % 256) ≡ n
of_be16-be16 n h = omega arith

pub of_be32-be32 :
    (n : ℕ)
    → n < 2 ^ 32
    → of_be32 (n / 2 ^ 24 % 256) (n / 2 ^ 16 % 256) (n / 2 ^ 8 % 256) (n % 256) ≡ n
of_be32-be32 n h = omega arith
