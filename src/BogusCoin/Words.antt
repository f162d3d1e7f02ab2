-- ===== src/BogusCoin/Words.antt =====
-- 5-mob-in-the-middle/main.go: `replaceBogusCoin` works word by word.
use protohackers.Prelude.{
  ℕ, zero, suc, ◌≤◌, ◌≡◌, refl, Bool, true, false, ◌&&◌, List, [], ◌∷◌, ◌++◌, append_assoc,
  append-nil, Option, none, some, Bytes, length, take, drop, get_elem?, leb, ◌==◌, if◌then◌else◌,
  arith, length-drop, length-take,
}
use protohackers.BogusCoin.{is_alnum, scan_address, at_word, replace_loop, replace_bogus_coin}

-- The first word of a line, and the others. Words are what spaces separate, and may be empty.
pub words : Bytes → Bytes × List Bytes
words [] = ([], [])
words (c ∷ s) = let (w, ws) = words s in if c == b' ' then ([], w ∷ ws) else (c ∷ w, ws)

pub all_alnum : Bytes → Bool
all_alnum [] = true
all_alnum (c ∷ s) = is_alnum c && all_alnum s

-- A Boguscoin address: it starts with a 7, and has 26 to 35 letters and digits.
pub is_address : Bytes → Bool
is_address [] = false
is_address (c ∷ s) =
    (c == b'7') && (all_alnum s && (leb 26 (suc (length s)) && leb (suc (length s)) 35))

pub rewrite_word : Bytes → Bytes → Bytes
rewrite_word replace w = if is_address w then replace else w

pub rewrite_words : Bytes → List Bytes → Bytes
rewrite_words replace [] = []
rewrite_words replace (w ∷ ws) = b' ' ∷ rewrite_word replace w ++ rewrite_words replace ws

-- Every word that is an address is replaced, and the rest of the line stays.
pub rewrite_line : Bytes → Bytes → Bytes
rewrite_line replace s = let (w, ws) = words s in rewrite_word replace w ++ rewrite_words replace ws

-- In the middle of a word, the word's rest stays.
rewrite_rest : Bytes → Bytes → Bytes
rewrite_rest replace s = let (w, ws) = words s in w ++ rewrite_words replace ws

-- What the inner loop has found: `n` letters and digits, and then the end of the word, or a byte
-- that is none of those.
scan_address-words :
    (r : Bytes)
    → let (n, is_bc) = scan_address r in
      let (w, ws) = words (drop n r) in
      (words r ≡ (take n r ++ w, ws))
      × (n ≤ length r)
      × (all_alnum (take n r) ≡ true)
      × (is_bc ≡ true → w ≡ [])
      × (is_bc ≡ false → all_alnum (take n r ++ w) ≡ false)
unfolding scan_address words all_alnum
scan_address-words [] = ground arith
scan_address-words (c ∷ r) = ground (arith, scan_address-words r)

-- The byte before the place to which the outer loop goes is a letter or a digit.
at_word_behind :
    (n b : ℕ) (r : Bytes)
    → is_alnum b ≡ true
    → n ≤ length r
    → all_alnum (take n r) ≡ true
    → at_word (get_elem? (b ∷ r) n) ≡ false
unfolding all_alnum
at_word_behind zero b r h le a = ground arith
at_word_behind (suc n) b [] h le a = absurd (omega arith)
at_word_behind (suc n) b (c ∷ r) h le a =
    at_word_behind n c r (ground arith) (omega arith) (ground arith)

all_alnum-append : (u w : Bytes) → all_alnum (u ++ w) ≡ (all_alnum u && all_alnum w)
unfolding all_alnum
all_alnum-append [] w = refl
all_alnum-append (c ∷ u) w = ground (arith, all_alnum-append u w)

module _ (replace : Bytes) where
  abbrev at_place : Bool → Bytes → Bytes
  at_place b s = if b then rewrite_line replace s else rewrite_rest replace s

  found_word :
      (is_bc : Bool) (n : ℕ) (u w rest : Bytes)
      → length u ≡ n
      → all_alnum u ≡ true
      → (is_bc ≡ true → w ≡ [])
      → (is_bc ≡ false → all_alnum (u ++ w) ≡ false)
      → (if is_bc && (leb 26 (suc n) && leb (suc n) 35) then replace else b'7' ∷ u) ++ (w ++ rest)
        ≡ rewrite_word replace (b'7' ∷ u ++ w) ++ rest
  unfolding rewrite_word is_address
  found_word true n u w rest len al h h' =
      rw (h refl, append-nil) (ground (arith, append_assoc (b'7' ∷ u) [] rest))
  found_word false n u w rest len al h h' = ground (arith, append_assoc (b'7' ∷ u) w rest)

  -- A 7 at the start of a word: the whole round.
  found_lem :
      (r : Bytes)
      → let (n, is_bc) = scan_address r in
        (if is_bc && (leb 26 (suc n) && leb (suc n) 35) then replace else b'7' ∷ take n r)
          ++ rewrite_rest replace (drop n r)
        ≡ rewrite_line replace (b'7' ∷ r)
  unfolding rewrite_rest rewrite_line
  found_lem r =
      let (n, is_bc) = scan_address r in
      let (w, ws) = words (drop n r) in
      let (e, le, al, h, h') = scan_address-words r in
      let e' : words (b'7' ∷ r) ≡ (b'7' ∷ take n r ++ w, ws) = (unfold words in rw e) in
      rw e' (
        found_word is_bc n (take n r) w (rewrite_words replace ws) (omega (arith, length-take n r))
          al h h')

  copied_lem :
      (b : ℕ) (r : Bytes) (start : Bool)
      → ((b == b'7') && start) ≡ false
      → b ∷ at_place (b == b' ') r ≡ at_place start (b ∷ r)
  unfolding rewrite_rest rewrite_line rewrite_words words rewrite_word is_address
  copied_lem b r start h = ground arith

  replace_loop_lem :
      (f : ℕ) (prev : Option ℕ) (s : Bytes)
      → length s ≤ f
      → replace_loop replace f prev s ≡ at_place (at_word prev) s
  unfolding replace_loop
  replace_loop_lem zero prev [] h =
      unfold rewrite_line rewrite_rest words rewrite_words rewrite_word is_address in ground arith
  replace_loop_lem zero prev (b ∷ r) h = absurd (omega arith)
  replace_loop_lem (suc f) prev [] h =
      unfold rewrite_line rewrite_rest words rewrite_words rewrite_word is_address in ground arith
  replace_loop_lem (suc f) prev (b ∷ r) h =
      let n : ℕ = (scan_address r).0 in
      let (e, le, al, h1, h2) = scan_address-words r in
      ground (
        arith,
        found_lem r,
        copied_lem b r (at_word prev),
        replace_loop_lem f (some b) r,
        replace_loop_lem f (get_elem? (b ∷ r) n) (drop n r),
        at_word_behind n b r,
        length-drop n r,
      )

-- The loop replaces exactly the words of the line that are Boguscoin addresses, by the given text,
-- and leaves the rest as it was.
pub replace_bogus_coin-rewrite_line :
    (message replace : Bytes) → replace_bogus_coin message replace ≡ rewrite_line replace message
unfolding replace_bogus_coin
replace_bogus_coin-rewrite_line message replace =
    replace_loop_lem replace (length message) none message (omega arith)
