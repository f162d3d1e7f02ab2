-- ===== src/Isl/Cipher/Inverse.antt =====
-- 8-insecure-sockets-layer/isl/cipher.go: a reader undoes what a writer of the same spec does.
use Prim.Native.Nat.{bit_xor}
use protohackers.Prelude.{
  ℕ, zero, suc, ◌+◌, ◌%◌, ◌/◌, ◌<◌, ◌≡◌, refl, ap, Bool, true, ◌&&◌, List, [], ◌∷◌, Bytes, length,
  arith, ◌==◌, ==_iff, All, IsByte,
}
use protohackers.Isl.Cipher.{
  Kind, reverse_bits, xor_pos, add_pos, xor, add, Operation, reverse8, encode_byte, decode_byte,
  encode_bytes, decode_bytes, write_op, read_op, write_all, read_all,
}

-- The test `p` holds at every number below `n`.
entries : (ℕ → Bool) → ℕ → Bool
entries p zero = true
entries p (suc n) = entries p n && p n

entry : (p : ℕ → Bool) (x n : ℕ) → x < n → entries p n ≡ true → p x ≡ true
unfolding entries
entry p x zero lt all_ = absurd (omega arith)
entry p x (suc n) lt all_ = ground (arith, entry p x n)

xor_self : entries (λ n. entries (λ b. bit_xor (bit_xor b n) n == b) 256) 256 ≡ true
unfolding entries
xor_self = refl

xor_small : entries (λ n. entries (λ b. (bit_xor b n / 256) == 0) 256) 256 ≡ true
unfolding entries
xor_small = refl

xor_twice : (b n : ℕ) → b < 256 → n < 256 → bit_xor (bit_xor b n) n ≡ b
xor_twice b n hb hn = (==_iff _ b).0 (
    entry (λ b. bit_xor (bit_xor b n) n == b) b 256 hb
      (entry (λ n. entries (λ b. bit_xor (bit_xor b n) n == b) 256) n 256 hn xor_self))

xor-IsByte : (b n : ℕ) → b < 256 → n < 256 → bit_xor b n < 256
xor-IsByte b n hb hn =
    let row : entries (λ b. (bit_xor b n / 256) == 0) 256 ≡ true =
      (entry (λ n. entries (λ b. (bit_xor b n / 256) == 0) 256) n 256 hn xor_small) in
    let e = (==_iff _ 0).0 (entry (λ b. (bit_xor b n / 256) == 0) b 256 hb row) in omega arith

reverse8-reverse8 : entries (λ b. reverse8 (reverse8 b) == b) 256 ≡ true
unfolding entries reverse8
reverse8-reverse8 = refl

-- The argument of a kind is a byte.
abbrev pub IsByteKind : Kind → Type 0
IsByteKind (xor n) = IsByte n
IsByteKind (add n) = IsByte n
IsByteKind _ = Unit

decode_byte-encode_byte :
    (k : Kind) (p b : ℕ) → IsByteKind k → b < 256 → decode_byte k p (encode_byte k p b) ≡ b
unfolding decode_byte encode_byte
decode_byte-encode_byte reverse_bits p b h hb =
    (==_iff _ b).0 (entry (λ x. reverse8 (reverse8 x) == x) b 256 hb reverse8-reverse8)
decode_byte-encode_byte (xor n) p b h hb = xor_twice b n hb h
decode_byte-encode_byte xor_pos p b h hb = xor_twice b (p % 256) hb (omega arith)
decode_byte-encode_byte (add n) p b h hb = omega arith
decode_byte-encode_byte add_pos p b h hb = omega arith

encode_byte-IsByte : (k : Kind) (p b : ℕ) → IsByteKind k → b < 256 → encode_byte k p b < 256
unfolding encode_byte
encode_byte-IsByte reverse_bits p b h hb = unfold reverse8 in omega arith
encode_byte-IsByte (xor n) p b h hb = xor-IsByte b n hb h
encode_byte-IsByte xor_pos p b h hb = xor-IsByte b (p % 256) hb (omega arith)
encode_byte-IsByte (add n) p b h hb = omega arith
encode_byte-IsByte add_pos p b h hb = omega arith

decode_bytes-encode_bytes :
    (k : Kind) (p : ℕ) (bs : Bytes)
    → IsByteKind k
    → All IsByte bs
    → decode_bytes k p (encode_bytes k p bs) ≡ bs
unfolding decode_bytes encode_bytes
decode_bytes-encode_bytes k p [] h hb = refl
decode_bytes-encode_bytes k p (b ∷ bs) h (hb, hbs) =
    cc (decode_byte-encode_byte k p b h hb, decode_bytes-encode_bytes k (p + 1) bs h hbs)

encode_bytes-All :
    (k : Kind) (p : ℕ) (bs : Bytes)
    → IsByteKind k
    → All IsByte bs
    → All IsByte (encode_bytes k p bs)
unfolding encode_bytes
encode_bytes-All k p [] h hb = tt
encode_bytes-All k p (b ∷ bs) h (hb, hbs) =
    (encode_byte-IsByte k p b h hb, encode_bytes-All k (p + 1) bs h hbs)

pub length-encode_bytes : (k : Kind) (p : ℕ) (bs : Bytes) → length (encode_bytes k p bs) ≡ length bs
unfolding encode_bytes
length-encode_bytes k p [] = refl
length-encode_bytes k p (b ∷ bs) = ap suc (length-encode_bytes k (p + 1) bs)

-- The bytes that a spec is given by are bytes.
abbrev pub AreByteKinds : List Operation → Type 0
AreByteKinds = All (λ op. IsByteKind op.kind)

-- Reading what was written, with operations that stand where the writer's stood: it gives the bytes
-- back, as many, and leaves the reader's operations where the writer's are.
pub read_all-write_all :
    (ops : List Operation) (bs : Bytes)
    → AreByteKinds ops
    → All IsByte bs
    → read_all ops (write_all ops bs).1 ≡ ((write_all ops bs).0, bs)
unfolding read_all write_all read_op write_op
read_all-write_all [] bs h hb = refl
read_all-write_all (op ∷ ops) bs (h, hs) hb =
    let inner =
      read_all-write_all ops (encode_bytes op.kind op.pos bs) hs
        (encode_bytes-All op.kind op.pos bs h hb) in
    rw inner (
      rw (length-encode_bytes op.kind op.pos bs, decode_bytes-encode_bytes op.kind op.pos bs h hb)
        refl)
