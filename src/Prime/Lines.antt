-- ===== src/Prime/Lines.antt =====
-- 1-prime-time: the requests of a connection are its lines, the last one without a newline too.
use native.Mathlib.Nat.{le_refl}
use protohackers.Prelude.{
  Result, ok, err, codes, ℕ, zero, suc, ◌≤◌, ◌≡◌, refl, ap, ◌∙◌, List, [], ◌∷◌, ◌++◌, append_assoc,
  Bytes, length, All, arith, map,
}
use protohackers.Prelude.TextLines.{HasNoNewline, unlines, length-unlines-cons}
use protohackers.Prime.{Error, Library, handler, read_bytes, reply, serve_loop, serve}

-- The responses one behind the other, up to the first error, which is the last thing that is written.
abbrev pub until_refused : List (Result Error Bytes) → Bytes
until_refused [] = []
until_refused (ok response ∷ rest) = response ++ until_refused rest
until_refused (err e ∷ rest) = codes "invalid request"

abbrev pub answers_to : Library → List Bytes → List (Result Error Bytes)
answers_to lib reqs = map (handler lib) reqs

abbrev pub last_request : Bytes → List Bytes
last_request [] = []
last_request (c ∷ r) = (c ∷ r) ∷ []

abbrev pub end_line : Bytes → Bytes
end_line l = l ++ b'\n' ∷ []

read_bytes_last : (r : Bytes) → HasNoNewline r → read_bytes r ≡ (r, [])
unfolding read_bytes
read_bytes_last [] h = refl
read_bytes_last (c ∷ r) (hc, h) = ground (arith, read_bytes_last r h)

read_bytes_next : (l r : Bytes) → HasNoNewline l → read_bytes (end_line l ++ r) ≡ (end_line l, r)
unfolding read_bytes
read_bytes_next [] r h = refl
read_bytes_next (c ∷ l) r (hc, h) = ground (arith, read_bytes_next l r h)

-- A round, on bytes that are there.
serve_round :
    (lib : Library) (f : ℕ) (s : Bytes) (req rest : Bytes)
    → suc 0 ≤ length s
    → read_bytes s ≡ (req, rest)
    → serve_loop lib (suc f) s ≡ reply (serve_loop lib f rest) (handler lib req)
unfolding serve_loop
serve_round lib f [] req rest some_byte read = absurd (omega arith)
serve_round lib f (c ∷ s) req rest some_byte read =
    ap (λ (p : Bytes × Bytes). reply (serve_loop lib f p.1) (handler lib p.0)) read

reply-until_refused :
    (x : Result Error Bytes) (rest : List (Result Error Bytes))
    → reply (until_refused rest) x ≡ until_refused (x ∷ rest)
reply-until_refused (ok response) rest = refl
reply-until_refused (err e) rest = refl

serve_loop_last :
    (lib : Library) (f : ℕ) (r : Bytes)
    → length r ≤ f
    → HasNoNewline r
    → serve_loop lib f r ≡ until_refused (answers_to lib (last_request r))
unfolding serve_loop
serve_loop_last lib zero [] le h = refl
serve_loop_last lib zero (c ∷ r) le h = absurd (omega arith)
serve_loop_last lib (suc f) [] le h = refl
serve_loop_last lib (suc f) (c ∷ r) le h =
    serve_round lib f (c ∷ r) (c ∷ r) [] (omega arith) (read_bytes_last (c ∷ r) h)
    ∙ ap (λ later. reply later (handler lib (c ∷ r))) (serve_loop_last lib f [] (omega arith) tt)
    ∙ reply-until_refused (handler lib (c ∷ r)) []

serve_loop-unlines :
    (lib : Library) (f : ℕ) (ls : List Bytes) (r : Bytes)
    → length (unlines ls ++ r) ≤ f
    → All HasNoNewline ls
    → HasNoNewline r
    → serve_loop lib f (unlines ls ++ r)
      ≡ until_refused (answers_to lib (map end_line ls ++ last_request r))
serve_loop-unlines lib f [] r le hs h = serve_loop_last lib f r le h
serve_loop-unlines lib zero (l ∷ ls) r le hs h = absurd (omega (arith, length-unlines-cons l ls r))
serve_loop-unlines lib (suc f) (l ∷ ls) r le (hl, hs) h =
    let rest = unlines ls ++ r in
    let some_byte : suc 0 ≤ length (unlines (l ∷ ls) ++ r) =
      (omega (arith, length-unlines-cons l ls r)) in
    let read : read_bytes (unlines (l ∷ ls) ++ r) ≡ (end_line l, rest) =
      (ap read_bytes (append_assoc (end_line l) (unlines ls) r) ∙ read_bytes_next l rest hl) in
    serve_round lib f (unlines (l ∷ ls) ++ r) (end_line l) rest some_byte read
    ∙ ap (λ later. reply later (handler lib (end_line l)))
        (serve_loop-unlines lib f ls r (omega (arith, length-unlines-cons l ls r)) hs h)
    ∙ reply-until_refused (handler lib (end_line l))
        (answers_to lib (map end_line ls ++ last_request r))

-- A client sends lines, and bytes without a newline before it closes: what is written is the responses to
-- the lines, and to the last bytes if there are any, up to the first request that is refused; that one
-- is answered with the text for an invalid request, and nothing is answered after it.
pub serve-unlines :
    (lib : Library) (ls : List Bytes) (r : Bytes)
    → All HasNoNewline ls
    → HasNoNewline r
    → serve lib (unlines ls ++ r)
      ≡ until_refused (answers_to lib (map end_line ls ++ last_request r))
unfolding serve
serve-unlines lib ls r hs h = serve_loop-unlines lib _ ls r (le_refl _) hs h
