-- ===== src/Means/Session.antt =====
-- 2-means-to-an-end: a session answers the messages that its bytes are.
use protohackers.Prelude.{
  Bool, ◌&&◌, ◌||◌, Option, some, none, Bool-cases, inl, inr, if◌then◌else◌, ℕ, zero, suc, ◌/◌, ◌%◌,
  ◌^◌, ◌≤◌, ◌<◌, ◌≡◌, ◌∙◌, refl, ap, fun_ext, append_assoc, List, [], ◌∷◌, ◌++◌, ok, Bytes, length,
  length-append, All, arith, ltb, true, false,
}
use protohackers.Prelude.Int.{
  ℤ, leb_ℤ, IsInt32, int32_of_bits, bits_of_int32, int32_of_bits-bits_of_int32, bits_of_int32-lt,
}
use protohackers.Prelude.Words.{of_be32, of_be32-be32}
use protohackers.Means.{
  Error, same_timestamp, has_price, mean_price, write_before, Message, insert, query,
  unexpected_eof, bytes_to_int32, int32_to_bytes, unmarshal_message, Prices, handle_message, Ended,
  closed, failed, and_then, session_loop, handle_session,
}

-- The nine bytes of a message.
abbrev pub message_bytes : Message → Bytes
message_bytes (insert t p) = b'I' ∷ int32_to_bytes t ++ int32_to_bytes p
message_bytes (query lo hi) = b'Q' ∷ int32_to_bytes lo ++ int32_to_bytes hi

abbrev pub IsMessage : Message → Type 0
IsMessage (insert t p) = IsInt32 t × IsInt32 p
IsMessage (query lo hi) = IsInt32 lo × IsInt32 hi

abbrev pub bytes_of : List Message → Bytes
bytes_of [] = []
bytes_of (m ∷ ms) = message_bytes m ++ bytes_of ms

abbrev read_back : ℤ → ℤ
read_back n =
    let b = bits_of_int32 n in
    int32_of_bits (of_be32 (b / 2 ^ 24 % 256) (b / 2 ^ 16 % 256) (b / 2 ^ 8 % 256) (b % 256))

read_back_lem : (n : ℤ) → IsInt32 n → read_back n ≡ n
read_back_lem n int32 =
    ap int32_of_bits (of_be32-be32 (bits_of_int32 n) (bits_of_int32-lt n int32))
    ∙ int32_of_bits-bits_of_int32 n int32

-- An int32 is read back from its four bytes.
pub bytes_to_int32-int32_to_bytes : (n : ℤ) → IsInt32 n → bytes_to_int32 (int32_to_bytes n) ≡ ok n
bytes_to_int32-int32_to_bytes n int32 = ap ok (read_back_lem n int32)

pub unmarshal_message-message_bytes :
    (m : Message) → IsMessage m → unmarshal_message (message_bytes m) ≡ ok m
unfolding unmarshal_message
unmarshal_message-message_bytes (insert t p) (ht, hp) =
    ap (λ x. ok (insert x (read_back p))) (read_back_lem t ht)
    ∙ ap (λ x. ok (insert t x)) (read_back_lem p hp)
unmarshal_message-message_bytes (query lo hi) (hlo, hhi) =
    ap (λ x. ok (query x (read_back hi))) (read_back_lem lo hlo)
    ∙ ap (λ x. ok (query lo x)) (read_back_lem hi hhi)

-- The end of a stream that goes on with fewer bytes than a message.
abbrev pub ending : Bytes → Ended
ending [] = closed []
ending (c ∷ cs) = failed [] unexpected_eof

-- The messages one after the other, as the loop handles them.
abbrev answers : Ended → Prices → List Message → Ended
answers end db [] = end
answers end db (m ∷ ms) = and_then (λ db'. answers end db' ms) (handle_message db m)

one_message :
    (rounds : ℕ) (db : Prices) (m : Message) (rest : Bytes)
    → IsMessage m
    → session_loop (suc rounds) db (message_bytes m ++ rest)
      ≡ and_then (λ db'. session_loop rounds db' rest) (handle_message db m)
unfolding session_loop
one_message rounds db (insert t p) rest is_message =
    let whole : ltb (length (message_bytes (insert t p) ++ rest)) 9 ≡ false = (ground arith) in
    rw (whole, unmarshal_message-message_bytes (insert t p) is_message) refl
one_message rounds db (query lo hi) rest is_message =
    let whole : ltb (length (message_bytes (query lo hi) ++ rest)) 9 ≡ false = (ground arith) in
    rw (whole, unmarshal_message-message_bytes (query lo hi) is_message) refl

length-message_bytes : (m : Message) → length (message_bytes m) ≡ 9
length-message_bytes (insert t p) = refl
length-message_bytes (query lo hi) = refl

session_loop-bytes_of :
    (rounds : ℕ) (db : Prices) (ms : List Message) (r : Bytes)
    → All IsMessage ms
    → length r < 9
    → length (bytes_of ms ++ r) ≤ rounds
    → session_loop rounds db (bytes_of ms ++ r) ≡ answers (ending r) db ms
unfolding session_loop
session_loop-bytes_of zero db [] [] good short le = refl
session_loop-bytes_of zero db [] (c ∷ cs) good short le = absurd (omega arith)
session_loop-bytes_of zero db (m ∷ ms) r good short le = absurd (
    omega (
      arith,
      length-append (message_bytes m ++ bytes_of ms) r,
      length-append (message_bytes m) (bytes_of ms),
      length-message_bytes m,
    ))
session_loop-bytes_of (suc rounds) db [] [] good short le = refl
session_loop-bytes_of (suc rounds) db [] (c ∷ cs) good short le =
    let cut : ltb (length (c ∷ cs)) 9 ≡ true = (ground arith) in rw cut refl
session_loop-bytes_of (suc rounds) db (m ∷ ms) r (is_message, good) short le =
    let rest = bytes_of ms ++ r in
    let fewer : length rest ≤ rounds =
      (omega (
        arith,
        length-append (message_bytes m ++ bytes_of ms) r,
        length-append (message_bytes m) (bytes_of ms),
        length-append (bytes_of ms) r,
        length-message_bytes m,
      )) in
    let next : (λ (db' : Prices). session_loop rounds db' rest)
        ≡ (λ db'. answers (ending r) db' ms) =
      (fun_ext (λ db'. session_loop-bytes_of rounds db' ms r good short fewer)) in
    ap (session_loop (suc rounds) db) (append_assoc (message_bytes m) (bytes_of ms) r)
    ∙ one_message rounds db m rest is_message
    ∙ ap (λ k. and_then k (handle_message db m)) next

abbrev pub is_logged : ℤ → Prices → Bool
is_logged t [] = false
is_logged t ((u, p) ∷ db) = (leb_ℤ t u && leb_ℤ u t) || is_logged t db

-- What is written for the messages, and the error that ends them, if one does: a query writes the four bytes
-- of the mean, an insert writes nothing and adds its price, and a second price at one time is the error.
abbrev pub transcript : Prices → List Message → Bytes × Option Error
transcript db [] = ([], none)
transcript db (insert t p ∷ ms) =
    let rest = transcript ((t, p) ∷ db) ms in
    if is_logged t db then ([], some same_timestamp) else rest
transcript db (query lo hi ∷ ms) =
    let (written, e) = transcript db ms in (int32_to_bytes (mean_price lo hi db) ++ written, e)

-- How the session ends, with `r` behind the messages.
abbrev pub finish : Bytes → Bytes × Option Error → Ended
finish r (written, some e) = failed written e
finish [] (written, none) = closed written
finish (c ∷ r) (written, none) = failed written unexpected_eof

has_price-is_logged : (t : ℤ) (db : Prices) → has_price t db ≡ is_logged t db
has_price-is_logged t [] = refl
has_price-is_logged t ((u, p) ∷ db) = rw (has_price-is_logged t db) refl

write_before-finish :
    (w r : Bytes) (x : Bytes × Option Error)
    → write_before w (finish r x) ≡ finish r (w ++ x.0, x.1)
write_before-finish w r (written, some e) = refl
write_before-finish w [] (written, none) = refl
write_before-finish w (c ∷ r) (written, none) = refl

write_before_nothing : (end : Ended) → write_before [] end ≡ end
write_before_nothing (closed w) = refl
write_before_nothing (failed w e) = refl

answers-transcript :
    (r : Bytes) (db : Prices) (ms : List Message)
    → answers (ending r) db ms ≡ finish r (transcript db ms)
unfolding handle_message
answers-transcript [] db [] = refl
answers-transcript (c ∷ r) db [] = refl
answers-transcript r db (insert t p ∷ ms) = elim (Bool-cases (is_logged t db)) [
  | inl again ↦ rw (has_price-is_logged t db, again) refl
  | inr new ↦
      rw (has_price-is_logged t db, new)
        (write_before_nothing _ ∙ answers-transcript r ((t, p) ∷ db) ms)
]
answers-transcript r db (query lo hi ∷ ms) =
    let w = int32_to_bytes (mean_price lo hi db) in
    ap (write_before w) (answers-transcript r db ms) ∙ write_before-finish w r (transcript db ms)

-- A client sends the bytes of messages with int32 numbers, and fewer bytes than a message. From no prices,
-- each query is answered with the mean of the prices before it, in order, until an insert repeats a time,
-- which ends the session with an error; if none does, it closes, or fails if there are bytes left.
pub handle_session-bytes_of :
    (ms : List Message) (r : Bytes)
    → All IsMessage ms
    → length r < 9
    → handle_session (bytes_of ms ++ r) ≡ finish r (transcript [] ms)
unfolding handle_session
handle_session-bytes_of ms r good short =
    session_loop-bytes_of (length (bytes_of ms ++ r)) [] ms r good short (omega arith)
    ∙ answers-transcript r [] ms
