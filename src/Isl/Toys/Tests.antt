-- ===== src/Isl/Toys/Tests.antt =====
-- 8-insecure-sockets-layer/main.go: a line of toys, sorted by insertion.
use protohackers.Prelude.{
  ◌≡◌, ◌⊎◌, ◌↔◌, inl, inr, refl, ap, List, [], ◌∷◌, ◌++◌, ok, codes, All, All-append, IsByte, arith,
  false, if◌then◌else◌, Bool-cases,
}
use protohackers.Prelude.Int.{pos, ltb_ℤ}
use protohackers.Prelude.Decimal.{format_int, digits}
use protohackers.Prelude.TextLines.{HasNoNewline}
use protohackers.Isl.Cipher.Chunks.{join}
use protohackers.Isl.Cipher.{
  Kind, xor, reverse_bits, add_pos, read_all, write_all, read_op, decode_bytes, decode_byte,
  advance,
}
use protohackers.Isl.Cipher.Spec.{spec_bytes, operations, is_no_op}
use protohackers.Isl.Server.{handle_conn}
use protohackers.Isl.Server.Replies.{replies, handle_conn_lem}
use protohackers.Isl.Toys.Served.{toys_served}
use protohackers.Isl.Toys.{Toy, decode_toys, handle_line}
use protohackers.Isl.Toys.Decode.{toy_text, toys_text, IsToy, decode_toys-toys_text}
use protohackers.Isl.Toys.Best.{HasToy, IsSorted, IsSort, IsBest, handle_line-toys_text}

abbrev insert : Toy → List Toy → List Toy
insert t [] = t ∷ []
insert t (u ∷ us) = let rest = insert t us in if ltb_ℤ t.count u.count then u ∷ rest else t ∷ u ∷ us

abbrev sort_toys : List Toy → List Toy
sort_toys [] = []
sort_toys (t ∷ ts) = insert t (sort_toys ts)

HasToy-insert : (t v : Toy) (us : List Toy) → HasToy v (insert t us) ↔ ((v ≡ t) ⊎ HasToy v us)
HasToy-insert t v [] = (λ h. h, λ h. h)
HasToy-insert t v (u ∷ us) =
    let rest = HasToy-insert t v us in
    elim (Bool-cases (ltb_ℤ t.count u.count)) [
      | inl less ↦ rw less (
        λ h. elim h [
          | inl e ↦ inr (inl e)
          | inr h' ↦ elim (rest.0 h') [ inl e ↦ inl e | inr h'' ↦ inr (inr h'') ]
        ],
        λ h. elim h [
          | inl e ↦ inr (rest.1 (inl e))
          | inr (inl e) ↦ inl e
          | inr (inr h') ↦ inr (rest.1 (inr h'))
        ],
      )
      | inr at_least ↦ rw at_least (λ h. h, λ h. h)
    ]

insert-IsSorted : (t : Toy) (us : List Toy) → IsSorted us → IsSorted (insert t us)
insert-IsSorted t [] sorted = (λ u h. absurd h, tt)
insert-IsSorted t (u ∷ us) (above, sorted) =
    let rest = insert-IsSorted t us sorted in
    elim (Bool-cases (ltb_ℤ t.count u.count)) [
      | inl less ↦ rw less (
        λ v h. elim ((HasToy-insert t v us).0 h) [
          | inl e ↦ ground (arith, ap (λ (x : Toy). x.count) e)
          | inr h' ↦ above v h'
        ],
        rest,
      )
      | inr at_least ↦ rw at_least (
        λ v h. elim h [
          | inl e ↦ ground (arith, ap (λ (x : Toy). x.count) e)
          | inr h' ↦ ground (arith, above v h')
        ],
        (above, sorted),
      )
    ]

sort_toys-IsSort : IsSort sort_toys
sort_toys-IsSort = record { keeps = keeps; sorts = sorts }
  where
    keeps : (ts : List Toy) (t : Toy) → HasToy t (sort_toys ts) ↔ HasToy t ts
    keeps [] t = (λ h. h, λ h. h)
    keeps (u ∷ us) t =
        let (into, from) = HasToy-insert u t (sort_toys us) in
        let (into', from') = keeps us t in
        (
          λ h. elim (into h) [ inl e ↦ inl e | inr h' ↦ inr (into' h') ],
          λ h. elim h [ inl e ↦ from (inl e) | inr h' ↦ from (inr (from' h')) ],
        )

    sorts : (ts : List Toy) → IsSorted (sort_toys ts)
    sorts [] = tt
    sorts (t ∷ ts) = insert-IsSorted t (sort_toys ts) (sorts ts)

abbrev dog : Toy
dog = record { count = pos 4; name = codes " dog" }

abbrev car : Toy
car = record { count = pos 15; name = codes " car" }

are_toys : All IsToy (dog ∷ car ∷ [])
are_toys = ground arith

decode_toys-toys_text_example : decode_toys (toys_text dog (car ∷ [])) ≡ ok (dog ∷ car ∷ [])
decode_toys-toys_text_example = decode_toys-toys_text dog (car ∷ []) are_toys

handle_line-toys_text_example :
    (t : Toy) × IsBest t (dog ∷ car ∷ [])
    × (join (handle_line sort_toys (toys_text dog (car ∷ []))) ≡ toy_text t)
handle_line-toys_text_example =
    handle_line-toys_text sort_toys dog (car ∷ []) sort_toys-IsSort are_toys

abbrev kinds : List Kind
kinds = xor 1 ∷ reverse_bits ∷ add_pos ∷ []

kinds-change : is_no_op kinds ≡ false
unfolding read_all read_op decode_bytes decode_byte advance
kinds-change = refl

toys-bytes : All IsByte (toys_text dog (car ∷ []))
unfolding format_int digits
toys-bytes = ground arith

toys-line : HasNoNewline (toys_text dog (car ∷ []))
unfolding format_int digits
toys-line = ground arith

toys_served_example :
    let line = toys_text dog (car ∷ []) ++ 10 ∷ [] in
    let sent = spec_bytes kinds ++ (write_all (operations kinds) line).1 in
    (t : Toy) × IsBest t (dog ∷ car ∷ [])
    × ((read_all (operations kinds) (handle_conn (handle_line sort_toys) sent)).1
        ≡ toy_text t ++ 10 ∷ [])
toys_served_example =
    toys_served sort_toys kinds dog (car ∷ []) sort_toys-IsSort kinds-change (ground arith) are_toys
      toys-bytes toys-line

-- The server for a handler that repeats a line, and one with two lines.
handle_conn_lem_example :
    let text = codes "ab" ++ 10 ∷ codes "c" ++ 10 ∷ codes "d" in
    let sent = spec_bytes kinds ++ (write_all (operations kinds) text).1 in
    (read_all (operations kinds) (handle_conn (λ l. l ∷ []) sent)).1
    ≡ join (replies (λ l. l ∷ []) (codes "ab" ∷ codes "c" ∷ []))
unfolding join
handle_conn_lem_example =
    handle_conn_lem (λ l. l ∷ []) kinds (codes "ab" ++ 10 ∷ codes "c" ++ 10 ∷ codes "d")
      kinds-change (ground arith) (ground arith) (λ l h. All-append IsByte l [] h tt)
