-- ===== src/Chat/Text.antt =====
-- 3-budget-chat/main.go: texts that are trimmed and lines.
use protohackers.Prelude.{
  ℕ, ◌≡◌, ◌≢◌, ◌∙◌, inl, inr, refl, sym, ap, true, false, Bool-cases, ==_iff, List, [], ◌∷◌, ◌++◌,
  append-nil, append_assoc, subst, Option, none, some, Bytes, codes, All, All-append, ◌==◌, arith,
}
use protohackers.Prelude.TextLines.{lines, HasNoNewline, lines-append}
use protohackers.Chat.{
  is_cut, trim_left, keep, trim_right, trim, EventType, unknown, message, join, leave, Event,
  text_of, event_text, add_byte, read_bytes, trimmed, read_message, all_alphanumeric, is_name,
}

-- Lines, each with its newline.
abbrev pub unlines : List Bytes → Bytes
unlines [] = []
unlines (l ∷ ls) = (l ++ 10 ∷ []) ++ unlines ls

pub lines-unlines : (ls : List Bytes) → All HasNoNewline ls → lines (unlines ls) ≡ ls
lines-unlines [] all = refl
lines-unlines (l ∷ ls) (without, all) =
    ap lines (append_assoc l (10 ∷ []) (unlines ls))
    ∙ lines-append l (10 ∷ unlines ls) without
    ∙ ap (λ (x : Bytes). x ∷ lines (unlines ls)) (append-nil l)
    ∙ ap (λ (xs : List Bytes). l ∷ xs) (lines-unlines ls all)

-- A text that does not end in a byte that is trimmed.
abbrev pub EndsWell : Bytes → Type 0
EndsWell s = trim_right s ≡ s

pub nil-EndsWell : EndsWell []
unfolding trim_right
nil-EndsWell = refl

keep_more : (c : ℕ) (s : Bytes) → s ≢ [] → keep c s ≡ c ∷ s
keep_more c [] ne = absurd (ne refl)
keep_more c (d ∷ ds) ne = refl

append-ne-nil : (a b : Bytes) → b ≢ [] → a ++ b ≢ []
append-ne-nil [] b ne = ne
append-ne-nil (c ∷ a) b ne = λ e. cc

-- What stands before such a text that is not empty does not matter.
pub EndsWell-append : (a b : Bytes) → b ≢ [] → EndsWell b → EndsWell (a ++ b)
unfolding trim_right
EndsWell-append [] b ne well = well
EndsWell-append (c ∷ a) b ne well =
    ap (keep c) (EndsWell-append a b ne well) ∙ keep_more c (a ++ b) (append-ne-nil a b ne)

EndsWell-cons : (c : ℕ) (s : Bytes) → is_cut c ≡ false → EndsWell s → EndsWell (c ∷ s)
unfolding trim_right
EndsWell-cons c [] not_cut well = rw not_cut refl
EndsWell-cons c (d ∷ ds) not_cut well = ap (keep c) well

keep-EndsWell : (c : ℕ) (s : Bytes) → EndsWell s → EndsWell (keep c s)
unfolding trim_right
keep-EndsWell c [] well = elim (Bool-cases (is_cut c)) [
  | inl cut ↦ rw cut refl
  | inr not_cut ↦ rw not_cut (rw not_cut refl)
]
keep-EndsWell c (d ∷ ds) well = ap (keep c) well

trim_right-EndsWell : (s : Bytes) → EndsWell (trim_right s)
unfolding trim_right
trim_right-EndsWell [] = refl
trim_right-EndsWell (c ∷ cs) = keep-EndsWell c (trim_right cs) (trim_right-EndsWell cs)

keep-HasNoNewline : (c : ℕ) (s : Bytes) → c ≢ 10 → HasNoNewline s → HasNoNewline (keep c s)
keep-HasNoNewline c [] ne without = elim (Bool-cases (is_cut c)) [
  | inl cut ↦ rw cut tt
  | inr not_cut ↦ rw not_cut (ne, tt)
]
keep-HasNoNewline c (d ∷ ds) ne without = (ne, without)

trim_right-HasNoNewline : (s : Bytes) → HasNoNewline s → HasNoNewline (trim_right s)
unfolding trim_right
trim_right-HasNoNewline [] without = tt
trim_right-HasNoNewline (c ∷ cs) (ne, without) =
    keep-HasNoNewline c (trim_right cs) ne (trim_right-HasNoNewline cs without)

-- A newline at the end is trimmed.
trim_right_newline : (s : Bytes) → trim_right (s ++ 10 ∷ []) ≡ trim_right s
unfolding trim_right
trim_right_newline [] = refl
trim_right_newline (c ∷ cs) = ap (keep c) (trim_right_newline cs)

trim-line : (s : Bytes) → HasNoNewline s → HasNoNewline (trim (s ++ 10 ∷ []))
unfolding trim_left trim_right
trim-line [] without = tt
trim-line (c ∷ cs) (ne, without) =
    let rest = trim-line cs without in
    let whole = trim_right-HasNoNewline (c ∷ cs) (ne, without) in
    elim (Bool-cases (is_cut c)) [
      | inl cut ↦ rw cut rest
      | inr not_cut ↦ rw (not_cut, trim_right_newline (c ∷ cs)) whole
    ]

-- The bytes that are read end in the first newline.
abbrev IsRead : Option (Bytes × Bytes) → Type 0
IsRead none = Unit
IsRead (some (raw, rest)) = (line : Bytes) × (raw ≡ line ++ 10 ∷ []) × HasNoNewline line

add_byte-IsRead : (c : ℕ) (o : Option (Bytes × Bytes)) → c ≢ 10 → IsRead o → IsRead (add_byte c o)
add_byte-IsRead c none ne read = tt
add_byte-IsRead c (some (raw, rest)) ne (line, e, without) =
    (c ∷ line, ap (λ (t : Bytes). c ∷ t) e, (ne, without))

read_bytes-IsRead : (s : Bytes) → IsRead (read_bytes s)
unfolding read_bytes
read_bytes-IsRead [] = tt
read_bytes-IsRead (c ∷ cs) =
    let more = add_byte-IsRead c (read_bytes cs) in
    let rest = read_bytes-IsRead cs in
    elim (Bool-cases (c == 10)) [
      | inl newline ↦ rw newline ([], ap (λ (d : ℕ). d ∷ []) ((==_iff c 10).0 newline), tt)
      | inr other ↦ rw other (more (λ e. cc (sym other ∙ (==_iff c 10).1 e)) rest)
    ]

-- A message that was read stands on one line, and is trimmed.
abbrev pub IsMessage : Bytes → Type 0
IsMessage s = HasNoNewline s × EndsWell s

abbrev IsMessageOf : Option (Bytes × Bytes) → Type 0
IsMessageOf none = Unit
IsMessageOf (some (text, rest)) = IsMessage text

trimmed-IsMessage : (o : Option (Bytes × Bytes)) → IsRead o → IsMessageOf (trimmed o)
trimmed-IsMessage none read = tt
trimmed-IsMessage (some (raw, rest)) (line, e, without) =
    (rw e (trim-line line without), trim_right-EndsWell (trim_left raw))

pub read_message-IsMessage :
    (s text rest : Bytes) → read_message s ≡ some (text, rest) → IsMessage text
unfolding read_message
read_message-IsMessage s text rest e =
    subst IsMessageOf e (trimmed-IsMessage (read_bytes s) (read_bytes-IsRead s))

all_alphanumeric-HasNoNewline : (s : Bytes) → all_alphanumeric s ≡ true → HasNoNewline s
all_alphanumeric-HasNoNewline [] all = tt
all_alphanumeric-HasNoNewline (c ∷ cs) all =
    ((λ e. ground arith), all_alphanumeric-HasNoNewline cs (ground arith))

-- The events that the sessions make.
abbrev pub IsEvent : Event → Type 0
IsEvent e = (is_name e.user ≡ true) × IsMessage e.text × (e.type ≢ unknown)

-- The text of an event is written as it is, on one line.
abbrev IsPlain : Bytes → Type 0
IsPlain s = HasNoNewline s × (trim s ≡ s)

event_text-IsPlain :
    (type : EventType) (user text : Bytes)
    → HasNoNewline user
    → IsMessage text
    → type ≢ unknown
    → IsPlain (event_text type user text)
unfolding trim_left trim_right
event_text-IsPlain unknown user text plain is_text known = absurd (known refl)
event_text-IsPlain join user text plain is_text known = (
  (
    (λ e. omega (arith, e)),
    ((λ e. omega (arith, e)), All-append (λ c. c ≢ 10) user _ plain (ground arith)),
  ),
  EndsWell-append (codes "* " ++ user) (codes " has entered the room") (λ e. cc) refl,
)
event_text-IsPlain leave user text plain is_text known = (
  (
    (λ e. omega (arith, e)),
    ((λ e. omega (arith, e)), All-append (λ c. c ≢ 10) user _ plain (ground arith)),
  ),
  EndsWell-append (codes "* " ++ user) (codes " has left the room") (λ e. cc) refl,
)
event_text-IsPlain message user text plain (without, well) known =
    let start = codes "[" ++ user in
    let joined = append_assoc start (codes "] ") text in
    let ends =
      EndsWell-append start (codes "] " ++ text) (λ e. cc)
        (EndsWell-append (codes "]") (32 ∷ text) (λ e. cc) (EndsWell-cons 32 text refl well)) in
    (
      (
        (λ e. omega (arith, e)),
        All-append (λ c. c ≢ 10) (user ++ codes "] ") text
            (All-append (λ c. c ≢ 10) user (codes "] ") plain (ground arith)) without,
      ),
      ap trim_right joined ∙ ends ∙ sym joined,
    )

pub text_of-IsPlain :
    (e : Event) → IsEvent e → HasNoNewline (text_of e) × (trim (text_of e) ≡ text_of e)
text_of-IsPlain e (is_user, is_text, known) =
    event_text-IsPlain e.type e.user e.text (all_alphanumeric-HasNoNewline e.user (ground arith))
      is_text known
