-- ===== src/Prelude/Slices.antt =====
-- Slices of joined lists.
use Prim.Native.Nat.{ℕ, zero, suc, ◌+◌, ◌-◌, ◌≤◌, ◌<◌}
use mathlib.Core.Path.{◌≡◌, ◌∙◌, refl, sym, ap}
use mathlib.Core.List.{List, [], ◌∷◌, ◌++◌, reverse, reverse-cons}
use mathlib.Core.Option.{some}
use native.Mathlib.Omega.{arith}
use protohackers.Prelude.Lists.{length, take, drop, get_elem?, length-append}

module _ {ℓ} {A : Type ℓ} where
  pub drop-append_le :
      (n : ℕ) (xs ys : List A) → n ≤ length xs → drop n (xs ++ ys) ≡ drop n xs ++ ys
  drop-append_le zero xs ys le = refl
  drop-append_le (suc n) [] ys le = absurd (omega arith)
  drop-append_le (suc n) (x ∷ xs) ys le = drop-append_le n xs ys (omega arith)

  pub drop-append_ge :
      (n : ℕ) (xs ys : List A) → length xs ≤ n → drop n (xs ++ ys) ≡ drop (n - length xs) ys
  drop-append_ge n [] ys le = ap (λ k. drop k ys) (omega arith)
  drop-append_ge zero (x ∷ xs) ys le = absurd (omega arith)
  drop-append_ge (suc n) (x ∷ xs) ys le = ground (arith, drop-append_ge n xs ys)

  pub take-append :
      (n : ℕ) (xs ys : List A) → take n (xs ++ ys) ≡ take n xs ++ take (n - length xs) ys
  take-append zero xs ys = ground arith
  take-append (suc n) [] ys = ground arith
  take-append (suc n) (x ∷ xs) ys = ground (arith, take-append n xs ys)

  drop-nil : (n : ℕ) → drop {A = A} n [] ≡ []
  drop-nil zero = refl
  drop-nil (suc n) = refl

  pub drop-drop : (m n : ℕ) (xs : List A) → drop m (drop n xs) ≡ drop (n + m) xs
  drop-drop m zero xs = ap (λ k. drop k xs) (omega arith)
  drop-drop m (suc n) [] = drop-nil m ∙ sym (drop-nil (suc n + m))
  drop-drop m (suc n) (x ∷ xs) =
      let e : suc (n + m) ≡ suc n + m = (omega arith) in
      drop-drop m n xs ∙ ap (λ k. drop k (x ∷ xs)) e

  pub get_elem?-append_lt :
      (xs : List A) (y : A) (i : ℕ) → i < length xs → get_elem? (xs ++ y ∷ []) i ≡ get_elem? xs i
  get_elem?-append_lt [] y i lt = absurd (omega arith)
  get_elem?-append_lt (x ∷ xs) y zero lt = refl
  get_elem?-append_lt (x ∷ xs) y (suc i) lt = get_elem?-append_lt xs y i (omega arith)

  pub get_elem?-append_last :
      (xs : List A) (y : A) (i : ℕ) → i ≡ length xs → get_elem? (xs ++ y ∷ []) i ≡ some y
  get_elem?-append_last [] y zero e = refl
  get_elem?-append_last [] y (suc i) e = absurd (omega arith)
  get_elem?-append_last (x ∷ xs) y zero e = absurd (omega arith)
  get_elem?-append_last (x ∷ xs) y (suc i) e = get_elem?-append_last xs y i (omega arith)

  pub length-reverse : (xs : List A) → length (reverse xs) ≡ length xs
  length-reverse [] = refl
  length-reverse (x ∷ xs) =
      omega (
        arith,
        ap length (reverse-cons x xs),
        length-append (reverse xs) (x ∷ []),
        length-reverse xs,
      )
