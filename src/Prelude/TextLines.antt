-- ===== src/Prelude/TextLines.antt =====
-- The lines of a text, each of which ends in a newline.
use Prim.Native.Nat.{suc, ◌+◌}
use mathlib.Core.Path.{◌≡◌, refl, sym, ap}
use mathlib.Core.Logic.{◌≢◌}
use mathlib.Core.List.{List, [], ◌∷◌, ◌++◌, append_assoc}
use native.Mathlib.Omega.{arith}
use protohackers.Prelude.Tests.{◌==◌, ==_iff, if◌then◌else◌}
use protohackers.Prelude.Lists.{Bytes, All, length, length-append}

-- `start` before the first line, if there is one.
abbrev pub begin_with : Bytes → List Bytes → List Bytes
begin_with start [] = []
begin_with start (l ∷ ls) = (start ++ l) ∷ ls

-- What follows the last newline is no line.
abbrev pub lines : Bytes → List Bytes
lines [] = []
lines (c ∷ cs) = let rest = lines cs in if c == 10 then [] ∷ rest else begin_with (c ∷ []) rest

pub begin_with-append :
    (a b : Bytes) (ls : List Bytes) → begin_with (a ++ b) ls ≡ begin_with a (begin_with b ls)
begin_with-append a b [] = refl
begin_with-append a b (l ∷ ls) = ap (λ (x : Bytes). x ∷ ls) (append_assoc a b l)

pub begin_with-nil : (ls : List Bytes) → begin_with [] ls ≡ ls
begin_with-nil [] = refl
begin_with-nil (l ∷ ls) = refl

abbrev pub HasNoNewline : Bytes → Type 0
HasNoNewline = All (λ c. c ≢ 10)

pub lines-append : (a rest : Bytes) → HasNoNewline a → lines (a ++ rest) ≡ begin_with a (lines rest)
lines-append [] rest without = sym (begin_with-nil (lines rest))
lines-append (c ∷ a) rest (ne, without) =
    ground
      (arith, ==_iff c 10, lines-append a rest without, begin_with-append (c ∷ []) a (lines rest))

-- Lines, each with its newline.
abbrev pub unlines : List Bytes → Bytes
unlines [] = []
unlines (l ∷ ls) = (l ++ b'\n' ∷ []) ++ unlines ls

pub length-unlines-cons :
    (l : Bytes) (ls : List Bytes) (r : Bytes)
    → length (unlines (l ∷ ls) ++ r) ≡ suc (length l + length (unlines ls ++ r))
length-unlines-cons l ls r = omega (
  arith,
  length-append (unlines (l ∷ ls)) r,
  length-append (l ++ b'\n' ∷ []) (unlines ls),
  length-append l (b'\n' ∷ []),
  length-append (unlines ls) r,
)
