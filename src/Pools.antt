-- ===== src/Pools.antt =====
-- 9-job-centre/util/pool.go, `GetBytes` and `PutBytes`, and the same functions of
-- 8-insecure-sockets-layer/util/pool.go: the pools that the slices of bytes are taken from.
mod Tests
pub mod Counts
pub mod Owned
use protohackers.Prelude.{
  ℕ, zero, suc, ◌+◌, ◌≤◌, ◌≡◌, List, [], ◌∷◌, Option, none, some, leb, ◌==◌, if◌then◌else◌,
}

-- A slice, with the array that it is of.
pub record Slice : Type 0 where
  pub array : ℕ
  pub len : ℕ
  pub cap : ℕ

-- `poolsBytes`, by size, and how many arrays were made.
pub record Pools : Type 0 where
  pub pools : List (ℕ × List Slice)
  pub made : ℕ

abbrev pub no_pools : Pools
no_pools = record { pools = []; made = 0 }

abbrev pub find_pool : ℕ → List (ℕ × List Slice) → Option (List Slice)
find_pool size [] = none
find_pool size ((k, p) ∷ ps) = let rest = find_pool size ps in if k == size then some p else rest

abbrev pub set_pool : ℕ → List Slice → List (ℕ × List Slice) → List (ℕ × List Slice)
set_pool size q [] = (size, q) ∷ []
set_pool size q ((k, p) ∷ ps) =
    let rest = set_pool size q ps in if k == size then (size, q) ∷ ps else (k, p) ∷ rest

abbrev pub or_empty : Option (List Slice) → List Slice
or_empty none = []
or_empty (some p) = p

abbrev pub behind : Slice → Option (Slice × List Slice) → Option (Slice × List Slice)
behind b none = none
behind b (some (c, p)) = some (c, b ∷ p)

abbrev pub pick_at : ℕ → List Slice → Option (Slice × List Slice)
pick_at i [] = none
pick_at zero (b ∷ p) = some (b, p)
pick_at (suc i) (b ∷ p) = behind b (pick_at i p)

-- `Get` of a `sync.Pool`: it takes any item out, or ignores the pool, as `choice` has it.
abbrev pub pool_get : Option ℕ → Option (List Slice) → Option (Slice × List Slice)
pool_get choice none = none
pool_get none (some p) = none
pool_get (some i) (some p) = pick_at i p

abbrev pub make_slice : ℕ → Pools → Slice × Pools
make_slice size s =
    (record { array = s.made; len = size; cap = size }, record s { made = s.made + 1 })

-- `buf[:size]`, which panics beyond the capacity.
abbrev pub slice_to : ℕ → Slice → Option Slice
slice_to size b = if leb size b.cap then some (record b { len = size }) else none

abbrev pub with_pools : Pools → Option Slice → Option (Slice × Pools)
with_pools s none = none
with_pools s (some b) = some (b, s)

abbrev pub get_from : ℕ → Pools → Option (Slice × List Slice) → Option (Slice × Pools)
get_from size s none = some (make_slice size s)
get_from size s (some (b, rest)) =
    with_pools (record s { pools = set_pool size rest s.pools }) (slice_to size b)

unfoldable pub get_bytes : Option ℕ → ℕ → Pools → Option (Slice × Pools)
get_bytes choice size s = get_from size s (pool_get choice (find_pool size s.pools))

unfoldable pub put_bytes : Slice → Pools → Pools
put_bytes b s = record s { pools = set_pool b.cap (b ∷ or_empty (find_pool b.cap s.pools)) s.pools }

-- The pools, and the slices that the program's routines hold.
pub record World : Type 0 where
  pub store : Pools
  pub held : List Slice

-- A routine takes a slice, puts one of its own back, or slices it again; the collector drops one out of
-- a pool.
pub data Steps (w : World) : World → Type 0 where
  gets :
      (choice : Option ℕ) (size : ℕ) (b : Slice) (s : Pools)
      → get_bytes choice size w.store ≡ some (b, s)
      → Steps w (record { store = s; held = b ∷ w.held })
  puts :
      (i : ℕ) (b : Slice) (rest : List Slice)
      → pick_at i w.held ≡ some (b, rest)
      → Steps w (record { store = put_bytes b w.store; held = rest })
  slices :
      (i n : ℕ) (b : Slice) (rest : List Slice)
      → pick_at i w.held ≡ some (b, rest)
      → n ≤ b.cap
      → Steps w (record w { held = record b { len = n } ∷ rest })
  collects :
      (size i : ℕ) (p : List Slice) (b : Slice) (rest : List Slice)
      → find_pool size w.store.pools ≡ some p
      → pick_at i p ≡ some (b, rest)
      → Steps w (record w { store = record w.store { pools = set_pool size rest w.store.pools } })

pub data Reach (w : World) : World → Type 0 where
  start : Reach w w
  later : {v u : World} → Reach w v → Steps v u → Reach w u
