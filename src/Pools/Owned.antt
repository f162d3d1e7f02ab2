-- ===== src/Pools/Owned.antt =====
-- 9-job-centre/util/pool.go: a slice that is taken is nobody else's.
use protohackers.Prelude.{
  ℕ, ◌+◌, ◌≤◌, ◌≡◌, refl, ap, ◌∙◌, subst, List, [], ◌∷◌, Option, none, some, leb, All, arith, true,
}
use protohackers.Pools.{
  Slice, Pools, no_pools, find_pool, set_pool, or_empty, pool_get, get_from, get_bytes, put_bytes,
  World, Steps, gets, puts, slices, collects, Reach, start, later,
}
use protohackers.Pools.Counts.{
  hit, uses, pooled, IsSized, uses-pick_at, pooled-set_pool, set_pool-IsSized, find_pool-HasCap,
  pool_get_lem,
}

-- An array has one slice at most, in a pool or held; and the slices of a pool are of its size.
pub record IsOwned (w : World) : Type 0 where
  once : (a : ℕ) → pooled a w.store.pools + uses a w.held ≤ 1
  known : (a : ℕ) → w.store.made ≤ a → pooled a w.store.pools + uses a w.held ≡ 0
  sized : All IsSized w.store.pools

-- The slice that `GetBytes` returns is of its size, and of an array that is neither held nor in a pool.
abbrev pub IsFresh : ℕ → World → Slice → Pools → Type 0
IsFresh size w b s =
    (b.len ≡ size) × (b.cap ≡ size) × (uses b.array w.held ≡ 0) × (pooled b.array s.pools ≡ 0)

hit_own : (b : Slice) → hit b.array b ≡ 1
hit_own b = ground arith

get_from_lem :
    (size : ℕ) (w : World) (x : Option (Slice × List Slice))
    → IsOwned w
    → ((b : Slice) (rest : List Slice)
        → x ≡ some (b, rest)
        → (b.cap ≡ size)
          × All IsSized (set_pool size rest w.store.pools)
          × ((a : ℕ)
              → pooled a (set_pool size rest w.store.pools) + hit a b ≡ pooled a w.store.pools))
    → (b : Slice) × (s : Pools) × (get_from size w.store x ≡ some (b, s))
      × IsFresh size w b s
      × IsOwned (record { store = s; held = b ∷ w.held })
get_from_lem size w none owned from_pool =
    let m = w.store.made in
    let b : Slice = record { array = m; len = size; cap = size } in
    let unknown = owned.known m (omega arith) in
    (
      b,
      record w.store { made = m + 1 },
      refl,
      (refl, refl, omega (arith, unknown), omega (arith, unknown)),
      record {
        once = λ a. ground (arith, owned.once a, owned.known a);
        known = λ a. λ le. ground (arith, owned.known a, le);
        sized = owned.sized;
      },
    )
get_from_lem size w (some (b, rest)) owned from_pool =
    let (cap, sized, counted) = from_pool b rest refl in
    let fits : leb size b.cap ≡ true = (ground (arith, cap)) in
    let own = counted b.array in
    let only = owned.once b.array in
    (
      record b { len = size },
      record w.store { pools = set_pool size rest w.store.pools },
      rw fits refl,
      (refl, cap, omega (arith, own, only, hit_own b), omega (arith, own, only, hit_own b)),
      record {
        once = λ a. omega (arith, counted a, owned.once a);
        known = λ a. λ le. omega (arith, counted a, owned.known a le);
        sized = sized;
      },
    )

-- What `GetBytes` returns, whatever the pool does.
get_bytes_lem :
    (choice : Option ℕ) (size : ℕ) (w : World)
    → IsOwned w
    → (b : Slice) × (s : Pools) × (get_bytes choice size w.store ≡ some (b, s))
      × IsFresh size w b s
      × IsOwned (record { store = s; held = b ∷ w.held })
unfolding get_bytes
get_bytes_lem choice size w owned =
    get_from_lem size w (pool_get choice (find_pool size w.store.pools)) owned
      (λ b. λ rest. λ e. pool_get_lem choice size w.store.pools b rest owned.sized e)

Steps-IsOwned : {w v : World} → Steps w v → IsOwned w → IsOwned v
unfolding put_bytes
Steps-IsOwned {w} (gets choice size b s e) owned =
    let (b', s', e', fresh, owned') = get_bytes_lem choice size w owned in
    let same : b' ≡ b = cc in
    let same' : s' ≡ s = cc in
    subst (λ (t : Pools). IsOwned (record { store = t; held = b ∷ w.held })) same'
      (subst (λ (c : Slice). IsOwned (record { store = s'; held = c ∷ w.held })) same owned')
Steps-IsOwned {w} (puts i b rest e) owned =
    let old = or_empty (find_pool b.cap w.store.pools) in
    let counted = λ (a : ℕ). pooled-set_pool a b.cap (b ∷ old) w.store.pools in
    let taken = λ (a : ℕ). uses-pick_at a i w.held b rest e in
    record {
      once = λ a. omega (arith, counted a, taken a, owned.once a);
      known = λ a. λ le. omega (arith, counted a, taken a, owned.known a le);
      sized =
          set_pool-IsSized b.cap (b ∷ old) w.store.pools
            (refl, find_pool-HasCap b.cap w.store.pools owned.sized) owned.sized;
    }
Steps-IsOwned {w} (slices i n b rest e le) owned =
    let taken = λ (a : ℕ). uses-pick_at a i w.held b rest e in
    record {
      once = λ a. omega (arith, taken a, owned.once a);
      known = λ a. λ le'. omega (arith, taken a, owned.known a le');
      sized = owned.sized;
    }
Steps-IsOwned {w} (collects size i p b rest found e) owned =
    let (cap, sized, counted) =
      pool_get_lem (some i) size w.store.pools b rest owned.sized
        (ap (pool_get (some i)) found ∙ e) in
    record {
      once = λ a. omega (arith, counted a, owned.once a);
      known = λ a. λ le. omega (arith, counted a, owned.known a le);
      sized = sized;
    }

abbrev pub new_world : World
new_world = record { store = no_pools; held = [] }

Reach-IsOwned : {w : World} → Reach new_world w → IsOwned w
Reach-IsOwned start = record { once = λ a. omega arith; known = λ a. λ le. refl; sized = tt }
Reach-IsOwned (later r step) = Steps-IsOwned step (Reach-IsOwned r)

-- Routines take slices, slice them again within their capacity, and put back what they hold, in any
-- order; a pool returns any of its items or none, and items are dropped from it. Then `GetBytes` never
-- panics: it returns a slice of the size asked for, and no routine holds a slice of the same array, and
-- none is in a pool.
pub get_bytes-IsFresh :
    {w : World} (choice : Option ℕ) (size : ℕ)
    → Reach new_world w
    → (b : Slice) × (s : Pools) × (get_bytes choice size w.store ≡ some (b, s)) × IsFresh size w b s
get_bytes-IsFresh {w} choice size reached =
    let (b, s, e, fresh, owned) = get_bytes_lem choice size w (Reach-IsOwned reached) in
    (b, s, e, fresh)
