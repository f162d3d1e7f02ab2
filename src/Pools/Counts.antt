-- ===== src/Pools/Counts.antt =====
-- 9-job-centre/util/pool.go: where the slices of an array are.
use protohackers.Prelude.{
  ℕ, zero, suc, ◌+◌, ◌≡◌, ap, ◌∙◌, subst, sym, List, [], ◌∷◌, Option, none, some, ◌==◌,
  if◌then◌else◌, All, arith, Bool-cases, inl, inr,
}
use protohackers.Pools.{Slice, find_pool, set_pool, or_empty, behind, pick_at, pool_get}

abbrev pub hit : ℕ → Slice → ℕ
hit a b = if b.array == a then 1 else 0

-- How many of the slices are of the array.
abbrev pub uses : ℕ → List Slice → ℕ
uses a [] = 0
uses a (b ∷ p) = hit a b + uses a p

abbrev pub pooled : ℕ → List (ℕ × List Slice) → ℕ
pooled a [] = 0
pooled a ((k, p) ∷ ps) = uses a p + pooled a ps

abbrev pub HasCap : ℕ → Slice → Type 0
HasCap size b = b.cap ≡ size

abbrev pub IsSized : ℕ × List Slice → Type 0
IsSized q = All (HasCap q.0) q.1

behind_inv :
    (c : Slice) (x : Option (Slice × List Slice)) (b : Slice) (rest : List Slice)
    → behind c x ≡ some (b, rest)
    → (rest' : List Slice) × (x ≡ some (b, rest')) × (c ∷ rest' ≡ rest)
behind_inv c none b rest e = cc
behind_inv c (some (d, p)) b rest e = (p, cc, cc)

pub uses-pick_at :
    (a i : ℕ) (p : List Slice) (b : Slice) (rest : List Slice)
    → pick_at i p ≡ some (b, rest)
    → uses a p ≡ hit a b + uses a rest
uses-pick_at a i [] b rest e = cc
uses-pick_at a zero (c ∷ p) b rest e =
    let same : c ≡ b = cc in
    let same' : p ≡ rest = cc in
    ap (λ (x : Slice). hit a x + uses a p) same ∙ ap (λ (q : List Slice). hit a b + uses a q) same'
uses-pick_at a (suc i) (c ∷ p) b rest e =
    let (rest', found, whole) = behind_inv c (pick_at i p) b rest e in
    omega (arith, uses-pick_at a i p b rest' found, ap (uses a) whole)

pub pooled-set_pool :
    (a size : ℕ) (q : List Slice) (ps : List (ℕ × List Slice))
    → pooled a (set_pool size q ps) + uses a (or_empty (find_pool size ps)) ≡ pooled a ps + uses a q
pooled-set_pool a size q [] = omega arith
pooled-set_pool a size q ((k, p) ∷ ps) = ground (arith, pooled-set_pool a size q ps)

pub set_pool-IsSized :
    (size : ℕ) (q : List Slice) (ps : List (ℕ × List Slice))
    → All (HasCap size) q
    → All IsSized ps
    → All IsSized (set_pool size q ps)
set_pool-IsSized size q [] hq h = (hq, tt)
set_pool-IsSized size q ((k, p) ∷ ps) hq (hp, h) =
    let rest = set_pool-IsSized size q ps hq h in
    elim (Bool-cases (k == size)) [ inl e ↦ rw e (hq, h) | inr e ↦ rw e (hp, rest) ]

pub find_pool-HasCap :
    (size : ℕ) (ps : List (ℕ × List Slice))
    → All IsSized ps
    → All (HasCap size) (or_empty (find_pool size ps))
find_pool-HasCap size [] h = tt
find_pool-HasCap size ((k, p) ∷ ps) (hp, h) = elim (Bool-cases (k == size)) [
  | inl e ↦ rw e (subst (λ (n : ℕ). All (HasCap n) p) (ground arith) hp)
  | inr e ↦ rw e (find_pool-HasCap size ps h)
]

pick_at-HasCap :
    (size i : ℕ) (p : List Slice) (b : Slice) (rest : List Slice)
    → All (HasCap size) p
    → pick_at i p ≡ some (b, rest)
    → HasCap size b × All (HasCap size) rest
pick_at-HasCap size i [] b rest h e = cc
pick_at-HasCap size zero (c ∷ p) b rest (hc, h) e =
    let same : c ≡ b = cc in
    let same' : p ≡ rest = cc in
    (
      ap (λ (x : Slice). x.cap) (sym same) ∙ hc,
      subst (λ (q : List Slice). All (HasCap size) q) same' h,
    )
pick_at-HasCap size (suc i) (c ∷ p) b rest (hc, h) e =
    let (rest', found, whole) = behind_inv c (pick_at i p) b rest e in
    let (hb, hr) = pick_at-HasCap size i p b rest' h found in
    (hb, subst (λ (q : List Slice). All (HasCap size) q) whole (hc, hr))

-- The slice that is got from the pool, and what it leaves there.
pub pool_get_lem :
    (choice : Option ℕ) (size : ℕ) (ps : List (ℕ × List Slice)) (b : Slice) (rest : List Slice)
    → All IsSized ps
    → pool_get choice (find_pool size ps) ≡ some (b, rest)
    → (b.cap ≡ size)
      × All IsSized (set_pool size rest ps)
      × ((a : ℕ) → pooled a (set_pool size rest ps) + hit a b ≡ pooled a ps)
pool_get_lem choice size ps b rest sized e =
    let (i, found) = picked choice (find_pool size ps) b rest e in
    let (cap, sized') =
      pick_at-HasCap size i (or_empty (find_pool size ps)) b rest (find_pool-HasCap size ps sized)
        found in
    (
      cap,
      set_pool-IsSized size rest ps sized' sized,
      λ a. omega (
        arith,
        pooled-set_pool a size rest ps,
        uses-pick_at a i (or_empty (find_pool size ps)) b rest found,
      ),
    )
  where
    picked :
        (choice : Option ℕ) (p : Option (List Slice)) (b : Slice) (rest : List Slice)
        → pool_get choice p ≡ some (b, rest)
        → (i : ℕ) × (pick_at i (or_empty p) ≡ some (b, rest))
    picked choice none b rest e = cc
    picked none (some p) b rest e = cc
    picked (some i) (some p) b rest e = (i, e)
