-- ===== src/JobCentre/Requests/Layout.antt =====
-- 9-job-centre/proto/server.go: the chunks of a buffer, full but for the last, and the bytes that they hold.
use protohackers.Prelude.{
  ℕ, zero, suc, ◌-◌, ◌*◌, ◌≤◌, ◌<◌, ◌≡◌, ◌∙◌, refl, sym, ap, inl, inr, List, [], ◌∷◌, ◌++◌,
  append-nil, append_assoc, Bytes, ◌==◌, ==_iff, Bool-cases, length, take, drop, length-append,
  length-take, length-drop, take-append-drop, arith,
}
use protohackers.JobCentre.Requests.{fill, add_data, max_size}

-- The bytes in their order.
abbrev pub contents : List Bytes → Bytes
contents [] = []
contents (b ∷ d) = contents d ++ b

abbrev pub AreFull : ℕ → List Bytes → Type 0
AreFull size [] = Unit
AreFull size (b ∷ d) = (length b ≡ size) × AreFull size d

abbrev pub IsPacked : ℕ → List Bytes → Type 0
IsPacked size [] = Unit
IsPacked size (b ∷ d) = (length b ≤ size) × AreFull size d

-- One copy into a chunk, and what is left to copy.
abbrev filled : ℕ → Bytes → Bytes → Bytes
filled size before b = b ++ take (size - length b) before

length-filled :
    (size : ℕ) (before b : Bytes) → length b ≤ size → length (filled size before b) ≤ size
length-filled size before b le =
    omega
      (arith, length-append b (take (size - length b) before), length-take (size - length b) before)

contents-filled :
    (size : ℕ) (before b : Bytes) (d : List Bytes)
    → contents (filled size before b ∷ d) ++ drop (size - length b) before
      ≡ contents (b ∷ d) ++ before
contents-filled size before b d =
    let k = size - length b in
    append_assoc (contents d) (b ++ take k before) (drop k before)
    ∙ ap (λ t. contents d ++ t)
        (append_assoc b (take k before) (drop k before)
          ∙ ap (λ t. b ++ t) (take-append-drop k before))
    ∙ sym (append_assoc (contents d) b before)

abbrev IsFilled : ℕ → Bytes → List Bytes → List Bytes → Type 0
IsFilled size before chunks chunks' =
    IsPacked size chunks' × (contents chunks' ≡ contents chunks ++ before)

abbrev Fills : ℕ → ℕ → Type 0
Fills rounds size =
    (before b : Bytes) (d : List Bytes)
    → length before ≤ rounds
    → IsPacked size (b ∷ d)
    → IsFilled size before (b ∷ d) (fill rounds size before (b ∷ d))

-- One round, and the others.
fill_round :
    (rounds size : ℕ) (before b : Bytes) (d : List Bytes)
    → Fills rounds size
    → length b < size
    → AreFull size d
    → length before ≤ suc rounds
    → 0 < length before
    → IsFilled size before
        (b ∷ d)
        (fill rounds size (drop (size - length b) before) (filled size before b ∷ d))
fill_round rounds size before b d rest lt full le some_left =
    let left = drop (size - length b) before in
    let (p, e) =
      rest left (filled size before b) d (omega (arith, length-drop (size - length b) before))
        (length-filled size before b (omega arith), full) in
    (p, e ∙ contents-filled size before b d)

fill_lem : (rounds size : ℕ) → 0 < size → Fills rounds size
unfolding fill
fill_lem zero size pos [] b d le packed = (packed, sym (append-nil (contents (b ∷ d))))
fill_lem zero size pos (c ∷ cs) b d le packed = absurd (omega arith)
fill_lem (suc rounds) size pos [] b d le packed = (packed, sym (append-nil (contents (b ∷ d))))
fill_lem (suc rounds) size pos (c ∷ cs) b d le packed =
    let rest = fill_lem rounds size pos in
    elim (Bool-cases (length b == size)) [
      | inl full ↦
          let is_full = (==_iff (length b) size).0 full in
          let (p, e) =
            fill_round rounds size (c ∷ cs) [] (b ∷ d) rest pos (is_full, packed.1) le
              (omega arith) in
          rw full (p, e ∙ ap (λ t. t ++ (c ∷ cs)) (append-nil (contents (b ∷ d))))
      | inr room ↦ rw room (
          fill_round rounds size (c ∷ cs) b d rest (ground (arith, ==_iff (length b) size)) packed.1
            le (omega arith))
    ]

-- The bytes before the newline go behind those that were there.
pub add_data_lem :
    (size : ℕ) (before : Bytes) (chunks : List Bytes)
    → 0 < size
    → IsPacked size chunks
    → IsFilled size before chunks (add_data size before chunks)
add_data_lem size before [] pos packed =
    fill_lem (length before) size pos before [] [] (omega arith) (omega arith, tt)
add_data_lem size before (b ∷ d) pos packed =
    fill_lem (length before) size pos before b d (omega arith) packed

pub length-contents :
    (size : ℕ) (d : List Bytes) → AreFull size d → length (contents d) ≡ length d * size
length-contents size [] full = omega arith
length-contents size (b ∷ d) (is_full, full) =
    omega (arith, length-append (contents d) b, length-contents size d full)

pub max_size_lem :
    (size : ℕ) (chunks : List Bytes)
    → IsPacked size chunks
    → max_size size chunks ≡ length (contents chunks)
max_size_lem size [] packed = refl
max_size_lem size (b ∷ d) (le, full) =
    omega (arith, length-append (contents d) b, length-contents size d full)
