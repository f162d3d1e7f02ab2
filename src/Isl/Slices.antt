-- ===== src/Isl/Slices.antt =====
-- `bufio.Reader.ReadSlice` of Go's standard library, as 8-insecure-sockets-layer/main.go and
-- 8-insecure-sockets-layer/isl/server.go use it: on a buffer of a given size over a stream of bytes.
use protohackers.Prelude.{
  ℕ, zero, suc, ◌<◌, ◌≡◌, ◌≢◌, ◌∙◌, refl, sym, ap, inl, inr, Bool-cases, [], ◌∷◌, ◌++◌, Bytes, ◌==◌,
  ==_iff, if◌then◌else◌, length, All, arith,
}

-- A slice up to the delimiter, without it, which the callers drop, and what follows; the slice that fills the
-- buffer, and what follows; or all that is left before the end.
pub data Slice : Type 0 where
  found full : Bytes → Bytes → Slice
  ended : Bytes → Slice

abbrev pub with_first : ℕ → Slice → Slice
with_first c (found s rest) = found (c ∷ s) rest
with_first c (full s rest) = full (c ∷ s) rest
with_first c (ended s) = ended (c ∷ s)

unfoldable pub read_slice : ℕ → ℕ → Bytes → Slice
read_slice zero delim s = full [] s
read_slice (suc room) delim [] = ended []
read_slice (suc room) delim (c ∷ cs) =
    let more = with_first c (read_slice room delim cs) in if c == delim then found [] cs else more

abbrev pub IsWithout : ℕ → Bytes → Type 0
IsWithout delim = All (λ c. c ≢ delim)

pub read_slice_found :
    (room delim : ℕ) (s rest : Bytes)
    → IsWithout delim s
    → length s < room
    → read_slice room delim (s ++ delim ∷ rest) ≡ found s rest
unfolding read_slice
read_slice_found zero delim s rest without lt = absurd (omega arith)
read_slice_found (suc room) delim [] rest without lt = ground (arith, ==_iff delim delim)
read_slice_found (suc room) delim (c ∷ cs) rest (ne, without) lt =
    ground (arith, ==_iff c delim, read_slice_found room delim cs rest without)

pub read_slice_ended :
    (room delim : ℕ) (s : Bytes)
    → IsWithout delim s
    → length s < room
    → read_slice room delim s ≡ ended s
unfolding read_slice
read_slice_ended zero delim s without lt = absurd (omega arith)
read_slice_ended (suc room) delim [] without lt = refl
read_slice_ended (suc room) delim (c ∷ cs) (ne, without) lt =
    ground (arith, ==_iff c delim, read_slice_ended room delim cs without)

-- What a slice says of its stream.
abbrev pub Cuts : ℕ → ℕ → Bytes → Slice → Type 0
Cuts room delim s (found a rest) = IsWithout delim a × (s ≡ a ++ delim ∷ rest)
Cuts room delim s (full a rest) = IsWithout delim a × (s ≡ a ++ rest) × (length a ≡ room)
Cuts room delim s (ended a) = IsWithout delim a × (s ≡ a)

Cuts-first :
    (room delim c : ℕ) (cs : Bytes) (r : Slice)
    → c ≢ delim
    → Cuts room delim cs r
    → Cuts (suc room) delim (c ∷ cs) (with_first c r)
Cuts-first room delim c cs (found a rest) ne (without, e) =
    ((ne, without), ap (λ (t : Bytes). c ∷ t) e)
Cuts-first room delim c cs (full a rest) ne (without, e, n) =
    ((ne, without), ap (λ (t : Bytes). c ∷ t) e, omega arith)
Cuts-first room delim c cs (ended a) ne (without, e) = ((ne, without), ap (λ (t : Bytes). c ∷ t) e)

pub read_slice_lem : (room delim : ℕ) (s : Bytes) → Cuts room delim s (read_slice room delim s)
unfolding read_slice
read_slice_lem zero delim s = (tt, refl, refl)
read_slice_lem (suc room) delim [] = (tt, refl)
read_slice_lem (suc room) delim (c ∷ cs) =
    let rest = read_slice_lem room delim cs in
    elim (Bool-cases (c == delim)) [
      | inl same ↦ rw same (tt, ap (λ (d : ℕ). d ∷ cs) ((==_iff c delim).0 same))
      | inr other ↦ rw other (
          Cuts-first room delim c cs (read_slice room delim cs)
            (λ e. cc (sym other ∙ (==_iff c delim).1 e)) rest)
    ]
