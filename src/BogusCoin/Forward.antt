-- ===== src/BogusCoin/Forward.antt =====
-- 5-mob-in-the-middle/main.go, `forward`: line by line, and what stands behind the last newline is lost.
use native.Mathlib.Nat.{le_refl}
use protohackers.Prelude.{
  ℕ, zero, suc, ◌≤◌, ◌≡◌, ◌≢◌, refl, ap, ◌∙◌, List, [], ◌∷◌, ◌++◌, append_assoc, none, some, Bytes,
  length, All, arith, map,
}
use protohackers.Prelude.TextLines.{unlines, length-unlines-cons}
use protohackers.BogusCoin.{modified, read_line, forward_loop, forward, bogus_coin_modifier}
use protohackers.BogusCoin.Words.{rewrite_line, replace_bogus_coin-rewrite_line}

-- Text without a newline.
abbrev pub IsLine : Bytes → Type 0
IsLine l = All (λ c. c ≢ b'\n') l

read_line_last : (r : Bytes) → IsLine r → read_line r ≡ none
unfolding read_line
read_line_last [] h = refl
read_line_last (c ∷ r) (hc, h) = ground (arith, read_line_last r h)

read_line_next : (l r : Bytes) → IsLine l → read_line ((l ++ b'\n' ∷ []) ++ r) ≡ some (l, r)
unfolding read_line
read_line_next [] r h = refl
read_line_next (c ∷ l) r (hc, h) = ground (arith, read_line_next l r h)

forward_loop-unlines :
    (fs : List (Bytes → Bytes)) (f : ℕ) (ls : List Bytes) (r : Bytes)
    → length (unlines ls ++ r) ≤ f
    → All IsLine ls
    → IsLine r
    → forward_loop fs f (unlines ls ++ r) ≡ unlines (map (modified fs) ls)
unfolding forward_loop
forward_loop-unlines fs zero [] r le hs h = refl
forward_loop-unlines fs zero (l ∷ ls) r le hs h = absurd (omega (arith, length-unlines-cons l ls r))
forward_loop-unlines fs (suc f) [] r le hs h = rw (read_line_last r h) refl
forward_loop-unlines fs (suc f) (l ∷ ls) r le (hl, hs) h =
    rw (append_assoc, read_line_next l (unlines ls ++ r) hl)
      (ap (λ (t : Bytes). (modified fs l ++ b'\n' ∷ []) ++ t)
        (forward_loop-unlines fs f ls r (omega (arith, length-unlines-cons l ls r)) hs h))

map-unmodified : (ls : List Bytes) → map (modified []) ls ≡ ls
map-unmodified [] = refl
map-unmodified (l ∷ ls) = ap (λ (t : List Bytes). l ∷ t) (map-unmodified ls)

map-modified :
    (replace : Bytes) (ls : List Bytes)
    → map (modified (bogus_coin_modifier replace ∷ [])) ls ≡ map (rewrite_line replace) ls
map-modified replace [] = refl
map-modified replace (l ∷ ls) =
    rw (map-modified replace ls, replace_bogus_coin-rewrite_line l replace) refl

-- From a stream of complete lines and an incomplete one, the loop writes the complete lines, each with
-- its newline: as they were without a modifier, and with the addresses in them replaced with the
-- Boguscoin modifier. What stands behind the last newline is not forwarded.
pub forward-unlines :
    (replace : Bytes) (ls : List Bytes) (r : Bytes)
    → All IsLine ls
    → IsLine r
    → (forward [] (unlines ls ++ r) ≡ unlines ls)
      × (forward (bogus_coin_modifier replace ∷ []) (unlines ls ++ r)
          ≡ unlines (map (rewrite_line replace) ls))
unfolding forward
forward-unlines replace ls r hs h = (
  forward_loop-unlines [] _ ls r (le_refl _) hs h ∙ ap unlines (map-unmodified ls),
  forward_loop-unlines (bogus_coin_modifier replace ∷ []) _ ls r (le_refl _) hs h
      ∙ ap unlines (map-modified replace ls),
)
