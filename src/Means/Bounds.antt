-- ===== src/Means/Bounds.antt =====
-- 2-means-to-an-end/main.go: the mean is the quotient of sum and count, and lies among the prices.
use protohackers.Prelude.{
  ◌%◌, All, List, length, false, ◌∙◌, ap, subst, sym, ◌≢◌, if◌then◌else◌, ℕ, zero, suc, ◌+◌, ◌*◌,
  ◌/◌, ◌≤◌, ◌<◌, ◌≡◌, inl, inr, refl, true, Bool-cases, [], ◌∷◌, ok, ◌&&◌, ltb, arith,
}
use native.Mathlib.Nat.{div-add-mod, mod-lt, mul_comm, le-div_iff_mul-le, div-le_of_le-mul}
use protohackers.Prelude.Int.{
  ℤ, pos, negsuc, pos_part, neg_part, ◌+ℤ◌, +ℤ_parts, ◌≤ℤ◌, leb_ℤ, IsInt32, wrap32, wrap32_id,
}
use protohackers.Means.{
  Prices, sum_prices, quotient, mean_of, mean_price, query, handle_message, int32_to_bytes,
}

-- Cutting towards zero does not leave an interval of integers.
quotient_ge :
    (a total : ℤ) (c : ℕ)
    → 0 < c
    → c * pos_part a + neg_part total ≤ c * neg_part a + pos_part total
    → a ≤ℤ quotient total c
quotient_ge (pos m) (pos n) c posi le =
    omega (arith, (le-div_iff_mul-le {k = c} {x = m} {y = n} posi).1 (omega arith))
quotient_ge (negsuc m) (pos n) c posi le = omega arith
quotient_ge (pos m) (negsuc n) c posi le = absurd (omega arith)
quotient_ge (negsuc m) (negsuc n) c posi le =
    go ((n + 1) / c) (div-le_of_le-mul c {m = n + 1} {n = m + 1} (omega arith))
  where
    go : (q : ℕ) → q ≤ m + 1 → negsuc m ≤ℤ elim q [ zero ↦ pos 0 | suc q ↦ negsuc q ]
    go zero le = omega arith
    go (suc q) le = omega arith

quotient_le :
    (b total : ℤ) (c : ℕ)
    → 0 < c
    → c * neg_part b + pos_part total ≤ c * pos_part b + neg_part total
    → quotient total c ≤ℤ b
quotient_le (pos m) (pos n) c posi le =
    omega (arith, div-le_of_le-mul c {m = n} {n = m} (omega arith))
quotient_le (negsuc m) (pos n) c posi le = absurd (omega arith)
quotient_le (pos m) (negsuc n) c posi le = go ((n + 1) / c)
  where
    go : (q : ℕ) → (elim q [ zero ↦ pos 0 | suc q ↦ negsuc q ]) ≤ℤ pos m
    go zero = omega arith
    go (suc q) = omega arith
quotient_le (negsuc m) (negsuc n) c posi le =
    go ((n + 1) / c) ((le-div_iff_mul-le {k = c} {x = m + 1} {y = n + 1} posi).1 (omega arith))
  where
    go : (q : ℕ) → m + 1 ≤ q → (elim q [ zero ↦ pos 0 | suc q ↦ negsuc q ]) ≤ℤ negsuc m
    go zero le = absurd (omega arith)
    go (suc q) le = omega arith

-- The prices at the timestamps from `lo` to `hi`, both included, and their sum.
abbrev pub prices_between : ℤ → ℤ → Prices → List ℤ
prices_between lo hi [] = []
prices_between lo hi ((t, p) ∷ db) =
    let rest = prices_between lo hi db in if leb_ℤ lo t && leb_ℤ t hi then p ∷ rest else rest

abbrev pub sum : List ℤ → ℤ
sum [] = pos 0
sum (p ∷ ps) = p +ℤ sum ps

-- `q` is the integer at or next to `total / count` on the side of zero.
abbrev pub IsCutQuotient : ℤ → ℕ → ℤ → Type 0
IsCutQuotient (pos n) count q =
    (neg_part q ≡ 0) × (pos_part q * count ≤ n) × (n < pos_part q * count + count)
IsCutQuotient (negsuc n) count q =
    (pos_part q ≡ 0) × (neg_part q * count ≤ n + 1) × (n + 1 < neg_part q * count + count)

-- The answer for the prices in the interval.
abbrev pub IsMean : List ℤ → ℤ → Type 0
IsMean [] mean = mean ≡ pos 0
IsMean (p ∷ ps) mean = IsCutQuotient (sum (p ∷ ps)) (length (p ∷ ps)) mean

abbrev pub AreWithin : ℤ → ℤ → List ℤ → Type 0
AreWithin a b ps = All (λ p. (a ≤ℤ p) × (p ≤ℤ b)) ps

sum_prices_lem :
    (lo hi : ℤ) (db : Prices)
    → sum_prices lo hi db ≡ (sum (prices_between lo hi db), length (prices_between lo hi db))
unfolding sum_prices
sum_prices_lem lo hi [] = refl
sum_prices_lem lo hi ((t, p) ∷ db) =
    let rest = sum_prices_lem lo hi db in
    elim (Bool-cases (leb_ℤ lo t && leb_ℤ t hi)) [
      | inl inside ↦
          rw (inside, rest) (ap (λ (c : ℕ). (p +ℤ sum (prices_between lo hi db), c)) (omega arith))
      | inr outside ↦ rw (outside, rest) refl
    ]

none_between : (lo hi : ℤ) (db : Prices) → leb_ℤ lo hi ≡ false → prices_between lo hi db ≡ []
none_between lo hi [] reversed = refl
none_between lo hi ((t, p) ∷ db) reversed =
    let outside : (leb_ℤ lo t && leb_ℤ t hi) ≡ false = (ground arith) in
    rw outside (none_between lo hi db reversed)

div_lem : (n c : ℕ) → 0 < c → (n / c * c ≤ n) × (n < n / c * c + c)
div_lem n c posi =
    let whole : n / c * c + n % c ≡ n =
      (ap (λ (k : ℕ). k + n % c) (mul_comm (n / c) c) ∙ div-add-mod n c) in
    (omega (arith, whole), omega (arith, whole, mod-lt n posi))

quotient-IsCutQuotient : (total : ℤ) (c : ℕ) → 0 < c → IsCutQuotient total c (quotient total c)
quotient-IsCutQuotient (pos n) c posi = let (le, lt) = div_lem n c posi in (refl, le, lt)
quotient-IsCutQuotient (negsuc n) c posi = go ((n + 1) / c) (div_lem (n + 1) c posi)
  where
    go :
        (q : ℕ)
        → (q * c ≤ n + 1) × (n + 1 < q * c + c)
        → IsCutQuotient (negsuc n) c (elim q [ zero ↦ pos 0 | suc q ↦ negsuc q ])
    go zero (le, lt) = (refl, le, lt)
    go (suc q) (le, lt) = (refl, le, lt)

abbrev SumBetween : ℤ → ℤ → ℤ × ℕ → Type 0
SumBetween a b (total, c) =
    (c * pos_part a + neg_part total ≤ c * neg_part a + pos_part total)
    × (c * neg_part b + pos_part total ≤ c * pos_part b + neg_part total)

add-SumBetween :
    (a b p total : ℤ) (c : ℕ)
    → a ≤ℤ p
    → p ≤ℤ b
    → SumBetween a b (total, c)
    → SumBetween a b (p +ℤ total, c + 1)
add-SumBetween a b p total c ha hb (lo, hi) =
    (omega (arith, +ℤ_parts p total), omega (arith, +ℤ_parts p total))

sum-SumBetween : (a b : ℤ) (ps : List ℤ) → AreWithin a b ps → SumBetween a b (sum ps, length ps)
sum-SumBetween a b [] within = (omega arith, omega arith)
sum-SumBetween a b (p ∷ ps) ((ha, hb), within) =
    subst (λ (c : ℕ). SumBetween a b (p +ℤ sum ps, c)) (omega arith)
      (add-SumBetween a b p (sum ps) (length ps) ha hb (sum-SumBetween a b ps within))

IsInt32-between : (a b n : ℤ) → IsInt32 a → IsInt32 b → a ≤ℤ n → n ≤ℤ b → IsInt32 n
IsInt32-between a b n ha hb lo hi = ground arith

-- The mean of prices between two int32s, computed from their sum and count, in an interval that is not
-- reversed.
mean_of_lem :
    (a b : ℤ) (ps : List ℤ)
    → IsInt32 a
    → IsInt32 b
    → AreWithin a b ps
    → IsMean ps (mean_of (sum ps, length ps))
      × (ps ≢ [] → (a ≤ℤ mean_of (sum ps, length ps)) × (mean_of (sum ps, length ps) ≤ℤ b))
mean_of_lem a b [] ha hb within = (refl, λ some_price. absurd (some_price refl))
mean_of_lem a b (p ∷ ps) ha hb within =
    let q = quotient (sum (p ∷ ps)) (length (p ∷ ps)) in
    let (below, above) = sum-SumBetween a b (p ∷ ps) within in
    let ge = quotient_ge a (sum (p ∷ ps)) (length (p ∷ ps)) (omega arith) below in
    let le = quotient_le b (sum (p ∷ ps)) (length (p ∷ ps)) (omega arith) above in
    let fits : wrap32 q ≡ q = wrap32_id q (IsInt32-between a b q ha hb ge le) in
    let counted : ltb 0 (length (p ∷ ps)) ≡ true = (ground arith) in
    let e : mean_of (sum (p ∷ ps), length (p ∷ ps)) ≡ q = (rw counted fits) in
    subst (λ (m : ℤ). IsMean (p ∷ ps) m × (p ∷ ps ≢ [] → (a ≤ℤ m) × (m ≤ℤ b))) (sym e)
      (
        quotient-IsCutQuotient (sum (p ∷ ps)) (length (p ∷ ps)) (omega arith),
        λ some_price. (ge, le),
      )

-- A query is answered with the mean of the prices whose timestamps are in its interval, both ends included,
-- if these prices are between two int32s: with 0 if there are none, as in an interval that is
-- reversed, and else with their sum divided by their count and cut towards zero, which is between the two
-- int32s as well.
pub mean_price_lem :
    (a b lo hi : ℤ) (db : Prices)
    → IsInt32 a
    → IsInt32 b
    → AreWithin a b (prices_between lo hi db)
    → (mean : ℤ) × (handle_message db (query lo hi) ≡ ok (db, int32_to_bytes mean))
      × IsMean (prices_between lo hi db) mean
      × (prices_between lo hi db ≢ [] → (a ≤ℤ mean) × (mean ≤ℤ b))
unfolding mean_price handle_message
mean_price_lem a b lo hi db ha hb within = elim (Bool-cases (leb_ℤ lo hi)) [
  | inl ordered ↦
      let ps = prices_between lo hi db in
      let (is_mean, bounds) = mean_of_lem a b ps ha hb within in
      (mean_of (sum ps, length ps), rw (ordered, sum_prices_lem lo hi db) refl, is_mean, bounds)
  | inr reversed ↦
      let empty = none_between lo hi db reversed in
      (pos 0, rw reversed refl, rw empty refl, λ some_price. absurd (some_price empty))
]
