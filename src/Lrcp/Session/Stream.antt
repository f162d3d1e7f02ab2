-- ===== src/Lrcp/Session/Stream.antt =====
-- 7-line-reversal/lrcp/session.go: the datagrams of a session carry a stream of bytes, and the handler
-- gets its lines.
use native.Mathlib.Numerals.{add-one}
use protohackers.Prelude.{
  ℕ, zero, suc, ◌+◌, ◌≤◌, ◌<◌, ◌≡◌, refl, true, false, List, [], ◌∷◌, ◌++◌, append_assoc,
  append-nil, Option, none, some, Bytes, length, take, drop, ltb, ◌==◌, if◌then◌else◌, arith,
  Bool-cases, inl, inr, length-append, length-take, length-drop, drop_all,
}
use protohackers.Lrcp.Session.{max_line_length, newline, find_newline, contents, read_lines}

-- The lines of a stream that starts behind the bytes `b` of a line, and the bytes behind the last
-- newline.
unfoldable pub lines_from : Bytes → Bytes → List Bytes × Bytes
lines_from b [] = ([], b)
lines_from b (c ∷ s) =
    let (ls, r) = lines_from [] s in
    let more = lines_from (b ++ c ∷ []) s in if c == newline then (b ∷ ls, r) else more

-- No line is longer than the buffer.
unfoldable pub FitsFrom : ℕ → Bytes → Type 0
FitsFrom n [] = n ≤ max_line_length
FitsFrom n (c ∷ s) = (n ≤ max_line_length) × FitsFrom (if c == newline then 0 else suc n) s

pub FitsFrom-le : (n : ℕ) (s : Bytes) → FitsFrom n s → n ≤ max_line_length
unfolding FitsFrom
FitsFrom-le n [] h = h
FitsFrom-le n (c ∷ s) h = h.0

-- One round of the loop: the bytes up to the newline or the end.
pub find_newline_lines :
    (b s : Bytes)
    → let (n, found) = find_newline s in
      (n ≤ length s)
      × (found ≡ true → n < length s)
      × (lines_from b s ≡ (
          if found
          then (let (ls, r) = lines_from [] (drop (n + 1) s) in ((b ++ take n s) ∷ ls, r))
          else ([], b ++ take n s)))
      × (found ≡ false → n ≡ length s)
unfolding find_newline lines_from
find_newline_lines b [] = ground (arith, append-nil b)
find_newline_lines b (c ∷ s) = ground (
  arith,
  find_newline_lines (b ++ c ∷ []) s,
  append_assoc b (c ∷ []) (take (find_newline s).0 s),
  append-nil b,
  add-one (find_newline s).0,
)

find_newline_fits :
    (k : ℕ) (s : Bytes)
    → FitsFrom k s
    → let (n, found) = find_newline s in
      (k + n ≤ max_line_length) × (found ≡ true → FitsFrom 0 (drop (n + 1) s))
unfolding find_newline FitsFrom
find_newline_fits k [] h = ground arith
find_newline_fits k (c ∷ s) (h, hs) = elim (Bool-cases (c == newline)) [
  | inl e ↦ let hs' : FitsFrom 0 s = (rw e at hs) in rw e (omega arith, λ _. hs')
  | inr e ↦
      let hs' : FitsFrom (suc k) s = (rw e at hs) in
      let (a, b) = find_newline_fits (suc k) s hs' in
      rw e (omega arith, λ t. rw add-one (rw add-one at (b t)))
]

read_lines-nil :
    (f : ℕ) (buf : Option Bytes) (lines : List Bytes)
    → read_lines f buf lines [] ≡ some (buf, lines)
unfolding read_lines
read_lines-nil zero buf lines = refl
read_lines-nil (suc f) buf lines = refl

-- The loop goes through all the data, unless a line is too long.
pub read_lines_lem :
    (f : ℕ) (buf : Option Bytes) (lines : List Bytes) (d : Bytes)
    → length d ≤ f
    → FitsFrom (length (contents buf)) d
    → (buf' : Option Bytes) × (read_lines f buf lines d
        ≡ some (buf', lines ++ (lines_from (contents buf) d).0))
      × (contents buf' ≡ (lines_from (contents buf) d).1)
unfolding read_lines
read_lines_lem zero buf lines [] len fits = unfold lines_from in (buf, rw append-nil, refl)
read_lines_lem zero buf lines (c ∷ d) len fits = absurd (omega arith)
read_lines_lem (suc f) buf lines [] len fits = unfold lines_from in (buf, rw append-nil, refl)
read_lines_lem (suc f) buf lines (c ∷ d) len fits =
    let b = contents buf in
    let n : ℕ = (find_newline (c ∷ d)).0 in
    let line : Bytes = b ++ take n (c ∷ d) in
    let (le, found_lt, all, at_end) = find_newline_lines b (c ∷ d) in
    let (small, fits') = find_newline_fits (length b) (c ∷ d) fits in
    let short : ltb max_line_length (length line) ≡ false =
      (ground (arith, length-append b (take n (c ∷ d)), length-take n (c ∷ d))) in
    elim (Bool-cases (find_newline (c ∷ d)).1) [
      | inl e ↦
          let shorter : length (drop (n + 1) (c ∷ d)) ≤ f =
            (omega (arith, length-drop (n + 1) (c ∷ d), found_lt e)) in
          let (buf', e1, e2) =
            read_lines_lem f none (lines ++ line ∷ []) (drop (n + 1) (c ∷ d)) shorter (fits' e) in
          let all' : lines_from b (c ∷ d) ≡ (
            line ∷ (lines_from [] (drop (n + 1) (c ∷ d))).0,
            (lines_from [] (drop (n + 1) (c ∷ d))).1,
          ) =
            (rw e at all) in
          (buf', rw (short, e, all', e1, append_assoc), rw all' e2)
      | inr e ↦
          let all' : lines_from b (c ∷ d) ≡ ([], line) = (rw e at all) in
          let over : drop n (c ∷ d) ≡ [] = drop_all n (c ∷ d) (omega (arith, at_end e)) in
          (some line, rw (short, e, all', over, read_lines-nil, append-nil), rw all' refl)
    ]

pub lines_from-append :
    (b s t : Bytes)
    → let (ls, r) = lines_from b s in
      let (ls', r') = lines_from r t in lines_from b (s ++ t) ≡ (ls ++ ls', r')
unfolding lines_from
lines_from-append b [] t = refl
lines_from-append b (c ∷ s) t =
    ground (arith, lines_from-append [] s t, lines_from-append (b ++ c ∷ []) s t)

pub FitsFrom-append :
    (b s t : Bytes)
    → FitsFrom (length b) (s ++ t)
    → FitsFrom (length (lines_from b s).1) t × FitsFrom (length b) s
unfolding FitsFrom lines_from
FitsFrom-append b [] t h = (h, FitsFrom-le (length b) t h)
FitsFrom-append b (c ∷ s) t (h, hs) = elim (Bool-cases (c == newline)) [
  | inl e ↦
      let hs' : FitsFrom 0 (s ++ t) = (rw e at hs) in
      let (p, q) = FitsFrom-append [] s t hs' in rw e (p, (h, q))
  | inr e ↦
      let hs' : FitsFrom (suc (length b)) (s ++ t) = (rw e at hs) in
      let len : suc (length b) ≡ length (b ++ c ∷ []) = (omega (arith, length-append b (c ∷ []))) in
      let (p, q) = FitsFrom-append (b ++ c ∷ []) s t (rw (← len) hs') in rw e (p, (h, rw len q))
]
