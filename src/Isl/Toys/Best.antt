-- ===== src/Isl/Toys/Best.antt =====
-- 8-insecure-sockets-layer/main.go: the handler answers with a toy that has the most copies.
use protohackers.Prelude.{
  ◌≡◌, ◌∙◌, ◌⊎◌, ◌↔◌, inl, inr, refl, ap, List, [], ◌∷◌, ◌++◌, All, arith, append-nil,
}
use protohackers.Prelude.Int.{◌≤ℤ◌}
use protohackers.Prelude.Decimal.{format_int}
use protohackers.Isl.Cipher.Chunks.{join}
use protohackers.Isl.Toys.{Toy, encode_toy, encode_first, answer, handle_line}
use protohackers.Isl.Toys.Decode.{toy_text, toys_text, IsToy, decode_toys-toys_text}

abbrev pub HasToy : Toy → List Toy → Type 0
HasToy t [] = ⊥
HasToy t (u ∷ us) = (t ≡ u) ⊎ HasToy t us

abbrev pub IsSorted : List Toy → Type 0
IsSorted [] = Unit
IsSorted (t ∷ ts) = ((u : Toy) → HasToy u ts → u.count ≤ℤ t.count) × IsSorted ts

-- `sort.Slice` by falling counts: the same toys, in order.
pub record IsSort (sort : List Toy → List Toy) : Type 0 where
  pub keeps : (ts : List Toy) (t : Toy) → HasToy t (sort ts) ↔ HasToy t ts
  pub sorts : (ts : List Toy) → IsSorted (sort ts)

-- A toy of the list, with as many copies as any.
abbrev pub IsBest : Toy → List Toy → Type 0
IsBest t ts = HasToy t ts × ((u : Toy) → HasToy u ts → u.count ≤ℤ t.count)

first-IsBest :
    (ts sorted : List Toy) (some_toy : Toy)
    → HasToy some_toy ts
    → ((t : Toy) → HasToy t sorted ↔ HasToy t ts)
    → IsSorted sorted
    → (t : Toy) × IsBest t ts × (encode_first sorted ≡ encode_toy t)
first-IsBest ts [] some_toy there keeps is_sorted = absurd ((keeps some_toy).1 there)
first-IsBest ts (t ∷ rest) some_toy there keeps (above, _) = (
  t,
  (
    (keeps t).0 (inl refl),
    λ u has. elim ((keeps u).1 has) [
      | inl same ↦ ground (arith, ap (λ (v : Toy). v.count) same)
      | inr later ↦ above u later
    ],
  ),
  refl,
)

-- Whatever sorts the toys by falling counts, the text of one toy or more is answered with a toy among them
-- that has as many copies as any, written the way the toys of the text are.
pub handle_line-toys_text :
    (sort : List Toy → List Toy) (toy : Toy) (toys : List Toy)
    → IsSort sort
    → All IsToy (toy ∷ toys)
    → (t : Toy) × IsBest t (toy ∷ toys)
      × (join (handle_line sort (toys_text toy toys)) ≡ toy_text t)
unfolding handle_line join
handle_line-toys_text sort toy toys is_sort all =
    let ts = toy ∷ toys in
    let (t, best, first) =
      first-IsBest ts (sort ts) toy (inl refl) (is_sort.keeps ts) (is_sort.sorts ts) in
    (
      t,
      best,
      ap (λ r. join (answer sort r)) (decode_toys-toys_text toy toys all)
          ∙ ap join first
          ∙ ap (λ n. format_int t.count ++ b'x' ∷ n) (append-nil t.name),
    )
