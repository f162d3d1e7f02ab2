-- ===== src/Pools/Tests.antt =====
-- 9-job-centre/util/pool.go: a slice that is put back is taken again, and only then.
use protohackers.Prelude.{ℕ, ◌≡◌, refl, [], ◌∷◌, some, none}
use protohackers.Pools.{Slice, Pools, get_bytes, put_bytes, World, gets, puts, Reach, start, later}
use protohackers.Pools.Owned.{IsFresh, new_world, get_bytes-IsFresh}

abbrev slice_of : ℕ → Slice
slice_of a = record { array = a; len = 4; cap = 4 }

-- The first of two slices of 4 bytes was put back.
abbrev one_back : World
one_back = record {
  store = record { pools = (4, slice_of 0 ∷ []) ∷ []; made = 2 };
  held = slice_of 1 ∷ [];
}

one_back_reached : Reach new_world one_back
unfolding get_bytes put_bytes
one_back_reached =
    later
      (later (later start (gets none 4 (slice_of 0) (record { pools = []; made = 1 }) refl))
        (gets (some 0) 4 (slice_of 1) (record { pools = []; made = 2 }) refl))
      (puts 1 (slice_of 0) (slice_of 1 ∷ []) refl)

taken_again :
    get_bytes (some 0) 4 one_back.store
    ≡ some (slice_of 0, record { pools = (4, []) ∷ []; made = 2 })
unfolding get_bytes
taken_again = refl

get_bytes-IsFresh_example :
    (b : Slice) × (s : Pools) × (get_bytes (some 0) 4 one_back.store ≡ some (b, s))
    × IsFresh 4 one_back b s
get_bytes-IsFresh_example = get_bytes-IsFresh (some 0) 4 one_back_reached
