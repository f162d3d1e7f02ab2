-- ===== src/Isl/Cipher/Chunks.antt =====
-- 8-insecure-sockets-layer/isl/cipher.go: it does not matter how a stream is cut into writes and reads.
use native.Mathlib.Nat.{add_assoc}
use protohackers.Prelude.{
  ℕ, ◌+◌, ◌≡◌, refl, sym, ap, ◌∙◌, false, Bool-cases, inl, inr, List, [], ◌∷◌, ◌++◌, Bytes, length,
  arith, length-append, All, IsByte,
}
use protohackers.Isl.Cipher.{
  Kind, reverse_bits, xor_pos, add_pos, xor, add, Operation, moves, encode_byte, decode_byte,
  encode_bytes, decode_bytes, advance, write_op, read_op, write_all, read_all,
}
use protohackers.Isl.Cipher.Inverse.{AreByteKinds, read_all-write_all}

encode_bytes-append :
    (k : Kind) (p : ℕ) (xs ys : Bytes)
    → encode_bytes k p (xs ++ ys) ≡ encode_bytes k p xs ++ encode_bytes k (p + length xs) ys
unfolding encode_bytes
encode_bytes-append k p [] ys = ap (λ (t : ℕ). encode_bytes k t ys) (omega arith)
encode_bytes-append k p (x ∷ xs) ys =
    ap (λ (t : Bytes). encode_byte k p x ∷ t)
      (encode_bytes-append k (p + 1) xs ys
        ∙ ap (λ (t : ℕ). encode_bytes k (p + 1) xs ++ encode_bytes k t ys) (omega arith))

encode_bytes_still :
    (k : Kind) (p q : ℕ) (xs : Bytes) → moves k ≡ false → encode_bytes k p xs ≡ encode_bytes k q xs
unfolding encode_bytes encode_byte
encode_bytes_still k p q [] h = refl
encode_bytes_still reverse_bits p q (x ∷ xs) h =
    cc (encode_bytes_still reverse_bits (p + 1) (q + 1) xs h)
encode_bytes_still (xor n) p q (x ∷ xs) h = cc (encode_bytes_still (xor n) (p + 1) (q + 1) xs h)
encode_bytes_still (add n) p q (x ∷ xs) h = cc (encode_bytes_still (add n) (p + 1) (q + 1) xs h)
encode_bytes_still xor_pos p q (x ∷ xs) h = cc
encode_bytes_still add_pos p q (x ∷ xs) h = cc

write_op-append :
    (op : Operation) (xs ys : Bytes)
    → write_op op (xs ++ ys)
      ≡ (let (op1, a) = write_op op xs in let (op2, b) = write_op op1 ys in (op2, a ++ b))
unfolding write_op advance
write_op-append op xs ys = elim (Bool-cases (moves op.kind)) [
  | inl e ↦ rw (e, encode_bytes-append op.kind op.pos xs ys, length-append xs ys, ← add_assoc) refl
  | inr e ↦
      rw
        (
          e,
          encode_bytes-append op.kind op.pos xs ys,
          encode_bytes_still op.kind (op.pos + length xs) op.pos ys e,
        )
        refl
]

decode_bytes-append :
    (k : Kind) (p : ℕ) (xs ys : Bytes)
    → decode_bytes k p (xs ++ ys) ≡ decode_bytes k p xs ++ decode_bytes k (p + length xs) ys
unfolding decode_bytes
decode_bytes-append k p [] ys = ap (λ (t : ℕ). decode_bytes k t ys) (omega arith)
decode_bytes-append k p (x ∷ xs) ys =
    ap (λ (t : Bytes). decode_byte k p x ∷ t)
      (decode_bytes-append k (p + 1) xs ys
        ∙ ap (λ (t : ℕ). decode_bytes k (p + 1) xs ++ decode_bytes k t ys) (omega arith))

decode_bytes_still :
    (k : Kind) (p q : ℕ) (xs : Bytes) → moves k ≡ false → decode_bytes k p xs ≡ decode_bytes k q xs
unfolding decode_bytes decode_byte
decode_bytes_still k p q [] h = refl
decode_bytes_still reverse_bits p q (x ∷ xs) h =
    cc (decode_bytes_still reverse_bits (p + 1) (q + 1) xs h)
decode_bytes_still (xor n) p q (x ∷ xs) h = cc (decode_bytes_still (xor n) (p + 1) (q + 1) xs h)
decode_bytes_still (add n) p q (x ∷ xs) h = cc (decode_bytes_still (add n) (p + 1) (q + 1) xs h)
decode_bytes_still xor_pos p q (x ∷ xs) h = cc
decode_bytes_still add_pos p q (x ∷ xs) h = cc

read_op-append :
    (op : Operation) (xs ys : Bytes)
    → read_op op (xs ++ ys)
      ≡ (let (op1, a) = read_op op xs in let (op2, b) = read_op op1 ys in (op2, a ++ b))
unfolding read_op advance
read_op-append op xs ys = elim (Bool-cases (moves op.kind)) [
  | inl e ↦ rw (e, decode_bytes-append op.kind op.pos xs ys, length-append xs ys, ← add_assoc) refl
  | inr e ↦
      rw
        (
          e,
          decode_bytes-append op.kind op.pos xs ys,
          decode_bytes_still op.kind (op.pos + length xs) op.pos ys e,
        )
        refl
]

-- Writing a text in two parts writes what writing it at once does, and leaves the operations alike.
pub write_all-append :
    (ops : List Operation) (xs ys : Bytes)
    → write_all ops (xs ++ ys)
      ≡ (let (ops1, a) = write_all ops xs in let (ops2, b) = write_all ops1 ys in (ops2, a ++ b))
unfolding write_all
write_all-append [] xs ys = refl
write_all-append (op ∷ ops) xs ys =
    rw (write_op-append op xs ys)
      (rw (write_all-append ops (write_op op xs).1 (write_op (write_op op xs).0 ys).1) refl)

-- The same for reading.
pub read_all-append :
    (ops : List Operation) (xs ys : Bytes)
    → read_all ops (xs ++ ys)
      ≡ (let (ops1, a) = read_all ops xs in let (ops2, b) = read_all ops1 ys in (ops2, a ++ b))
unfolding read_all
read_all-append [] xs ys = refl
read_all-append (op ∷ ops) xs ys =
    rw (read_all-append ops xs ys)
      (rw (read_op-append op (read_all ops xs).1 (read_all (read_all ops xs).0 ys).1) refl)

-- The wire text of several writes, one behind the other.
pub write_chunks : List Operation → List Bytes → Bytes
write_chunks ops [] = []
write_chunks ops (c ∷ cs) = let (ops', out) = write_all ops c in out ++ write_chunks ops' cs

-- The plain text of several reads.
pub read_chunks : List Operation → List Bytes → Bytes
read_chunks ops [] = []
read_chunks ops (c ∷ cs) = let (ops', out) = read_all ops c in out ++ read_chunks ops' cs

unfoldable pub join : List Bytes → Bytes
join [] = []
join (c ∷ cs) = c ++ join cs

write_all-nil : (ops : List Operation) → (write_all ops []).1 ≡ []
unfolding write_all write_op encode_bytes
write_all-nil [] = refl
write_all-nil (op ∷ ops) = write_all-nil ops

read_all-nil : (ops : List Operation) → (read_all ops []).1 ≡ []
unfolding read_all read_op
read_all-nil [] = refl
read_all-nil (op ∷ ops) = rw (read_all-nil ops) (unfold decode_bytes in refl)

pub write_chunks-join :
    (ops : List Operation) (cs : List Bytes) → write_chunks ops cs ≡ (write_all ops (join cs)).1
unfolding write_chunks join
write_chunks-join ops [] = sym (write_all-nil ops)
write_chunks-join ops (c ∷ cs) =
    rw (write_all-append ops c (join cs))
      (ap (λ (t : Bytes). (write_all ops c).1 ++ t) (write_chunks-join (write_all ops c).0 cs))

read_chunks-join :
    (ops : List Operation) (cs : List Bytes) → read_chunks ops cs ≡ (read_all ops (join cs)).1
unfolding read_chunks join
read_chunks-join ops [] = sym (read_all-nil ops)
read_chunks-join ops (c ∷ cs) =
    rw (read_all-append ops c (join cs))
      (ap (λ (t : Bytes). (read_all ops c).1 ++ t) (read_chunks-join (read_all ops c).0 cs))

-- A text of bytes that one side writes in any parts is what the other side, with the same ciphers, reads
-- in any other parts.
pub read_chunks-write_chunks :
    (ops : List Operation) (writes reads : List Bytes)
    → AreByteKinds ops
    → All IsByte (join writes)
    → join reads ≡ write_chunks ops writes
    → read_chunks ops reads ≡ join writes
read_chunks-write_chunks ops writes reads h hb same =
    read_chunks-join ops reads
    ∙ ap (λ (t : Bytes). (read_all ops t).1) (same ∙ write_chunks-join ops writes)
    ∙ ap (λ (t : List Operation × Bytes). t.1) (read_all-write_all ops (join writes) h hb)
