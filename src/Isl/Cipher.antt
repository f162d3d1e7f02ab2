-- ===== src/Isl/Cipher.antt =====
-- 8-insecure-sockets-layer/isl/cipher.go. An operation is its kind, with the position that the
-- position ciphers keep; a copy starts at 0. Writers take all that they are given; a read fills the
-- buffer that it is given.
pub mod Inverse
pub mod Chunks
pub mod Spec
use Prim.Native.Nat.{bit_xor}
use protohackers.Prelude.{
  ℕ, zero, suc, ◌+◌, ◌-◌, ◌*◌, ◌/◌, ◌%◌, Bool, true, false, List, [], ◌∷◌, ◌++◌, Option, none, some,
  Result, ok, err, ◌>>=◌, Bytes, bytes_eq, codes, length, reverse, ◌==◌, if◌then◌else◌,
}

pub data Kind : Type 0 where
  reverse_bits xor_pos add_pos : Kind
  xor add : ℕ → Kind

pub record Operation : Type 0 where
  pub kind : Kind
  pub pos : ℕ

-- `Copy`
abbrev pub copy : Operation → Operation
copy op = record { kind = op.kind; pos = 0 }

-- `bits.Reverse8`
unfoldable pub reverse8 : ℕ → ℕ
reverse8 b =
    b % 2 * 128
    + b / 2 % 2 * 64
    + b / 4 % 2 * 32
    + b / 8 % 2 * 16
    + b / 16 % 2 * 8
    + b / 32 % 2 * 4
    + b / 64 % 2 * 2
    + b / 128 % 2

-- One byte of the loop in `Write`, at the position `p` of the stream. Bytes wrap around.
unfoldable pub encode_byte : Kind → ℕ → ℕ → ℕ
unfolding reverse8
encode_byte reverse_bits p b = reverse8 b
encode_byte (xor n) p b = bit_xor b n
encode_byte xor_pos p b = bit_xor b (p % 256)
encode_byte (add n) p b = (b + n) % 256
encode_byte add_pos p b = (b + p % 256) % 256

-- The same in `Read`.
unfoldable pub decode_byte : Kind → ℕ → ℕ → ℕ
unfolding reverse8
decode_byte reverse_bits p b = reverse8 b
decode_byte (xor n) p b = bit_xor b n
decode_byte xor_pos p b = bit_xor b (p % 256)
decode_byte (add n) p b = (b + 256 - n) % 256
decode_byte add_pos p b = (b + 256 - p % 256) % 256

-- `for i, b := range p`, from the position `p` on.
unfoldable pub encode_bytes : Kind → ℕ → Bytes → Bytes
encode_bytes k p [] = []
encode_bytes k p (b ∷ bs) = encode_byte k p b ∷ encode_bytes k (p + 1) bs

unfoldable pub decode_bytes : Kind → ℕ → Bytes → Bytes
decode_bytes k p [] = []
decode_bytes k p (b ∷ bs) = decode_byte k p b ∷ decode_bytes k (p + 1) bs

abbrev pub moves : Kind → Bool
moves xor_pos = true
moves add_pos = true
moves _ = false

-- `c.pos += n` in the position ciphers.
unfoldable pub advance : ℕ → Operation → Operation
advance n op = record op { pos = if moves op.kind then op.pos + n else op.pos }

-- `Write` of one operation: what it hands to the writer under it.
unfoldable pub write_op : Operation → Bytes → Operation × Bytes
write_op op p = (advance (length p) op, encode_bytes op.kind op.pos p)

-- `Read` of one operation, of what the reader under it has put into the buffer.
unfoldable pub read_op : Operation → Bytes → Operation × Bytes
read_op op p = (advance (length p) op, decode_bytes op.kind op.pos p)

-- `NewWriter` and `NewReader` wrap the operations from the last to the first, so the first is outermost.
abbrev pub copies : List Operation → List Operation
copies [] = []
copies (op ∷ ops) = copy op ∷ copies ops

-- A write goes through the first operation, and what that writes through the next.
unfoldable pub write_all : List Operation → Bytes → List Operation × Bytes
write_all [] p = ([], p)
write_all (op ∷ ops) p =
    let (op', p') = write_op op p in let (ops', out) = write_all ops p' in (op' ∷ ops', out)

-- A read of the first operation first reads from the next.
unfoldable pub read_all : List Operation → Bytes → List Operation × Bytes
read_all [] p = ([], p)
read_all (op ∷ ops) p =
    let (ops', p') = read_all ops p in let (op', out) = read_op op p' in (op' ∷ ops', out)

pub data Error : Type 0 where
  eof invalid_type no_op : Error

abbrev pub data_validation : Bytes
data_validation = codes "4x dog,5x car\n"

-- `r.Read` of one byte.
abbrev pub read_byte : Bytes → Result Error (ℕ × Bytes)
read_byte [] = err eof
read_byte (c ∷ r) = ok (c, r)

abbrev pub fresh : Kind → Operation
fresh k = record { kind = k; pos = 0 }

-- The loop over the types, with the operations so far. Each round takes a byte at least, so the length of
-- the stream and one is fuel enough.
unfoldable pub read_operations : ℕ → List Operation → Bytes → Result Error (List Operation × Bytes)
read_operations zero ops r = err eof
read_operations (suc f) ops [] = err eof
read_operations (suc f) ops (c ∷ r) =
    let more = λ (k : Kind) (r' : Bytes). read_operations f (ops ++ fresh k ∷ []) r' in
    let with_reverse = more reverse_bits r in
    let with_xor = read_byte r >>= λ x. more (xor x.0) x.1 in
    let with_xor_pos = more xor_pos r in
    let with_add = read_byte r >>= λ x. more (add x.0) x.1 in
    let with_add_pos = more add_pos r in
    if c == 0
    then ok (ops, r)
    else if c == 1
    then with_reverse
    else if c == 2
    then with_xor
    else if c == 3
    then with_xor_pos
    else if c == 4
    then with_add
    else if c == 5
    then with_add_pos
    else err invalid_type

-- A spec that leaves the validation text as it is, is refused.
abbrev pub validate : List Operation × Bytes → Result Error (List Operation × Bytes)
validate (ops, r) =
    let (ops', out) = read_all (copies ops) data_validation in
    if bytes_eq data_validation out then err no_op else ok (ops, r)

unfoldable pub read_cipher_spec : Bytes → Result Error (List Operation × Bytes)
read_cipher_spec r = do x ← read_operations (length r + 1) [] r; validate x
