-- ===== src/Lrcp/Server/TooLong.antt =====
-- 7-line-reversal/lrcp/session.go and server.go: a line that is longer than the buffer of its session.
use protohackers.Prelude.{
  ℕ, zero, suc, ◌+◌, ◌≤◌, ◌<◌, ◌^◌, ◌≡◌, ◌↔◌, refl, subst, true, false, List, [], ◌∷◌, ◌++◌, Option,
  none, some, Bytes, length, take, drop, ltb, ◌==◌, arith, Bool-cases, inl, inr, length-append,
  length-take, length-drop, append-nil,
}
use protohackers.Prelude.Int.{ℤ, pos, ◌-ℤ◌, ◌+ℤ◌, wrap32}
use protohackers.Lrcp.Message.{data_}
use protohackers.Lrcp.Session.{
  Session, max_line_length, newline, find_newline, contents, read_lines, read_new_line_from_message,
  handle_data, handle_incoming, take_new, acked,
}
use protohackers.Lrcp.Session.Stream.{
  lines_from, FitsFrom, FitsFrom-le, FitsFrom-append, find_newline_lines,
}
use protohackers.Lrcp.Session.Received.{Received, read_on}
use protohackers.Lrcp.Server.{Manager, conclude, handle_incoming_message}

fits_behind_newline :
    (k : ℕ) (s : Bytes)
    → k + (find_newline s).0 ≤ max_line_length
    → ((find_newline s).1 ≡ true → FitsFrom 0 (drop ((find_newline s).0 + 1) s))
    → FitsFrom k s
unfolding find_newline FitsFrom
fits_behind_newline k [] le rest = ground arith
fits_behind_newline k (c ∷ s) le rest = elim (Bool-cases (c == newline)) [
  | inl e ↦
      let le' : k + 0 ≤ max_line_length = (rw e at le) in
      let rest' : true ≡ true → FitsFrom 0 s = (rw e at rest) in rw e (omega arith, rest' refl)
  | inr e ↦
      let le' : k + suc (find_newline s).0 ≤ max_line_length = (rw e at le) in
      let one : suc (find_newline s).0 + 1 ≡ suc ((find_newline s).0 + 1) = (omega arith) in
      let rest' : (find_newline s).1 ≡ true → FitsFrom 0 (drop ((find_newline s).0 + 1) s) =
        (λ t. subst (λ (k : ℕ). FitsFrom 0 (drop k (c ∷ s))) one (rw e at (rest (rw e t)))) in
      rw e (omega arith, fits_behind_newline (suc k) s (omega arith) rest')
]

not_over : (a b : ℕ) → ltb a b ≡ false → b ≤ a
not_over a b e = ground arith

read_lines_long :
    (f : ℕ) (buf : Option Bytes) (lines : List Bytes) (d : Bytes)
    → length d ≤ f
    → length (contents buf) ≤ max_line_length
    → ¬ FitsFrom (length (contents buf)) d
    → read_lines f buf lines d ≡ none
unfolding read_lines
read_lines_long zero buf lines [] len le long = absurd (long (unfold FitsFrom in le))
read_lines_long zero buf lines (c ∷ d) len le long = absurd (omega arith)
read_lines_long (suc f) buf lines [] len le long = absurd (long (unfold FitsFrom in le))
read_lines_long (suc f) buf lines (c ∷ d) len le long =
    let b = contents buf in
    let n : ℕ = (find_newline (c ∷ d)).0 in
    let line : Bytes = b ++ take n (c ∷ d) in
    let (within, found_lt, all, at_end) = find_newline_lines b (c ∷ d) in
    let behind = drop (n + 1) (c ∷ d) in
    let fits = fits_behind_newline (length b) (c ∷ d) in
    let size : length line ≡ length b + n =
      (omega (arith, length-append b (take n (c ∷ d)), length-take n (c ∷ d))) in
    elim (Bool-cases (ltb max_line_length (length line))) [
      | inl over ↦ rw over refl
      | inr short ↦
          let small : length b + n ≤ max_line_length =
            subst (λ (k : ℕ). k ≤ max_line_length) size
              (not_over max_line_length (length line) short) in
          elim (Bool-cases (find_newline (c ∷ d)).1) [
            | inl e ↦
                let shorter : length behind ≤ f =
                  (omega (arith, length-drop (n + 1) (c ∷ d), found_lt e)) in
                rw (short, e)
                  (read_lines_long f none (lines ++ line ∷ []) behind shorter (omega arith)
                    (λ fits'. long (fits small (λ t. fits'))))
            | inr e ↦ absurd (long (fits small (λ t. absurd (ground arith))))
          ]
    ]

fits_append :
    (b s t : Bytes)
    → FitsFrom (length b) s
    → FitsFrom (length (lines_from b s).1) t
    → FitsFrom (length b) (s ++ t)
unfolding lines_from FitsFrom
fits_append b [] t h h' = h'
fits_append b (c ∷ s) t (h, hs) h' = elim (Bool-cases (c == newline)) [
  | inl e ↦
      let hs' : FitsFrom 0 s = (rw e at hs) in
      let h'' : FitsFrom (length (lines_from [] s).1) t = (rw e at h') in
      rw e (h, fits_append [] s t hs' h'')
  | inr e ↦
      let hs' : FitsFrom (suc (length b)) s = (rw e at hs) in
      let len : suc (length b) ≡ length (b ++ c ∷ []) = (omega (arith, length-append b (c ∷ []))) in
      let h'' : FitsFrom (length (lines_from (b ++ c ∷ []) s).1) t = (rw e at h') in
      let more = fits_append (b ++ c ∷ []) s t (rw (← len) hs') h'' in rw e (h, rw len more)
]

-- Data that goes on where the session is.
module _ (n : ℤ) (got d : Bytes) (s : Session) (m : Manager) (there : m.sessions n ≡ some s)
    (r : Received got s) (fits : FitsFrom 0 got) (some_data : 0 < length d)
    (short : length got + length d < 2 ^ 31) where
  abbrev counted_on : Session
  counted_on = record s { len_total_incoming = wrap32 (s.len_total_incoming +ℤ pos (length d)) }

  taken :
      (p : ℕ)
      → p < 2 ^ 31
      → s.len_total_incoming ≡ pos p
      → handle_data (pos p) d s ≡ take_new (pos 0) d s
  unfolding handle_data ◌-ℤ◌ wrap32
  taken p small e = ground arith

  at_end : handle_data (pos (length got)) d s ≡ acked (read_new_line_from_message d counted_on)
  at_end = taken (length got) (omega arith) r.counted

  on_data :
      handle_incoming_message (data_ n (pos (length got)) d) m
      ≡ conclude n m (acked (read_new_line_from_message d counted_on))
  unfolding handle_incoming_message handle_incoming handle_data ◌-ℤ◌ wrap32
  on_data = rw (there, at_end) refl

  fits_now : FitsFrom (length (contents counted_on.incoming_buf)) d → FitsFrom 0 (got ++ d)
  fits_now h = fits_append [] got d fits (rw r.kept at h)

  panics-long :
      handle_incoming_message (data_ n (pos (length got)) d) m ≡ none → ¬ FitsFrom 0 (got ++ d)
  panics-long panics all_fit =
      let (s', e, _, _, _, _) = read_on got d counted_on r.passed_on r.kept all_fit in
      let not_none : conclude n m (acked (some s')) ≡ none = (rw (on_data, e) at panics) in
      absurd (ground arith)

  room : length (contents s.incoming_buf) ≤ max_line_length
  room = rw r.kept (
      FitsFrom-le (length (lines_from [] got).1) []
        (FitsFrom-append [] got [] (rw append-nil fits)).0)

  long-panics :
      ¬ FitsFrom 0 (got ++ d) → handle_incoming_message (data_ n (pos (length got)) d) m ≡ none
  unfolding read_new_line_from_message
  long-panics long =
      rw
        (
          on_data,
          read_lines_long (length d) s.incoming_buf s.incoming_chan d (omega arith) room
              (λ h. long (fits_now h)),
        )
        refl

  -- A session has received the beginning `got` of a stream, in which no line is longer than 10000 bytes, and the
  -- next of the stream arrives, less than 2^31 bytes in all. The server panics if, and only if, a line of the two
  -- together, or the part of one behind the last newline, is longer than 10000 bytes.
  pub next_data_panics_iff :
      (handle_incoming_message (data_ n (pos (length got)) d) m ≡ none) ↔ (¬ FitsFrom 0 (got ++ d))
  next_data_panics_iff = (panics-long, long-panics)
