-- ===== src/Isl/Cipher/Spec.antt =====
-- 8-insecure-sockets-layer/isl/cipher.go, `ReadCipherSpec`: what is accepted as a spec.
use protohackers.Prelude.{
  ℕ, zero, suc, ◌+◌, ◌≤◌, ◌≡◌, ◌≢◌, refl, sym, ap, ◌∙◌, Bool, true, false, List, [], ◌∷◌, ◌++◌,
  append_assoc, append-nil, Result, ok, err, >>=-eq-ok, ok-injective, Bytes, bytes_eq, bytes_eq_iff,
  length, arith, length-append, if◌then◌else◌,
}
use protohackers.Isl.Cipher.{
  Kind, reverse_bits, xor_pos, add_pos, xor, add, Operation, fresh, copies, read_all, Error, no_op,
  data_validation, read_operations, validate, read_cipher_spec,
}

-- The bytes that stand for a kind, and for a spec.
pub kind_bytes : Kind → Bytes
kind_bytes reverse_bits = 1 ∷ []
kind_bytes (xor n) = 2 ∷ n ∷ []
kind_bytes xor_pos = 3 ∷ []
kind_bytes (add n) = 4 ∷ n ∷ []
kind_bytes add_pos = 5 ∷ []

pub spec_bytes : List Kind → Bytes
spec_bytes [] = 0 ∷ []
spec_bytes (k ∷ ks) = kind_bytes k ++ spec_bytes ks

abbrev pub operations : List Kind → List Operation
operations [] = []
operations (k ∷ ks) = fresh k ∷ operations ks

-- A spec that leaves the validation text alone.
abbrev pub is_no_op : List Kind → Bool
is_no_op ks = bytes_eq data_validation (read_all (copies (operations ks)) data_validation).1

read_operations-spec_bytes :
    (f : ℕ) (ops : List Operation) (ks : List Kind) (rest : Bytes)
    → length (spec_bytes ks) ≤ f
    → read_operations f ops (spec_bytes ks ++ rest) ≡ ok (ops ++ operations ks, rest)
unfolding read_operations spec_bytes kind_bytes
read_operations-spec_bytes zero ops [] rest h = absurd (omega arith)
read_operations-spec_bytes zero ops (reverse_bits ∷ ks) rest h = absurd (omega arith)
read_operations-spec_bytes zero ops (xor n ∷ ks) rest h = absurd (omega arith)
read_operations-spec_bytes zero ops (xor_pos ∷ ks) rest h = absurd (omega arith)
read_operations-spec_bytes zero ops (add n ∷ ks) rest h = absurd (omega arith)
read_operations-spec_bytes zero ops (add_pos ∷ ks) rest h = absurd (omega arith)
read_operations-spec_bytes (suc f) ops [] rest h = rw append-nil refl
read_operations-spec_bytes (suc f) ops (reverse_bits ∷ ks) rest h =
    rw
      (
        read_operations-spec_bytes f (ops ++ fresh reverse_bits ∷ []) ks rest (omega arith),
        append_assoc,
      )
      refl
read_operations-spec_bytes (suc f) ops (xor n ∷ ks) rest h =
    rw
      (read_operations-spec_bytes f (ops ++ fresh (xor n) ∷ []) ks rest (omega arith), append_assoc)
      refl
read_operations-spec_bytes (suc f) ops (xor_pos ∷ ks) rest h =
    rw
      (read_operations-spec_bytes f (ops ++ fresh xor_pos ∷ []) ks rest (omega arith), append_assoc)
      refl
read_operations-spec_bytes (suc f) ops (add n ∷ ks) rest h =
    rw
      (read_operations-spec_bytes f (ops ++ fresh (add n) ∷ []) ks rest (omega arith), append_assoc)
      refl
read_operations-spec_bytes (suc f) ops (add_pos ∷ ks) rest h =
    rw
      (read_operations-spec_bytes f (ops ++ fresh add_pos ∷ []) ks rest (omega arith), append_assoc)
      refl

-- Every list of ciphers is read from its bytes, and what follows is left; it is refused exactly if it
-- leaves the validation text as it is.
pub read_cipher_spec-spec_bytes :
    (ks : List Kind) (rest : Bytes)
    → read_cipher_spec (spec_bytes ks ++ rest)
      ≡ (if is_no_op ks then err no_op else ok (operations ks, rest))
unfolding read_cipher_spec
read_cipher_spec-spec_bytes ks rest =
    rw
      (read_operations-spec_bytes (length (spec_bytes ks ++ rest) + 1) [] ks rest
        (omega (arith, length-append (spec_bytes ks) rest)))
      refl

-- What a run of the loop has read.
abbrev Read : List Operation → Bytes → List Operation → Bytes → Type 0
Read ops r ops' rest =
    (ks : List Kind) × (ops' ≡ ops ++ operations ks) × (r ≡ spec_bytes ks ++ rest)

Read-one_more :
    (k : Kind) (ops : List Operation) (r : Bytes) (ops' : List Operation) (rest : Bytes)
    → Read (ops ++ fresh k ∷ []) r ops' rest
    → Read ops (kind_bytes k ++ r) ops' rest
unfolding spec_bytes
Read-one_more k ops r ops' rest (ks, e, e') = (
  k ∷ ks,
  e ∙ append_assoc ops (fresh k ∷ []) (operations ks),
  ap (λ (t : Bytes). kind_bytes k ++ t) e' ∙ sym (append_assoc (kind_bytes k) (spec_bytes ks) rest),
)

read_operations_inv :
    (f : ℕ) (ops : List Operation) (r : Bytes) (ops' : List Operation) (rest : Bytes)
    → read_operations f ops r ≡ ok (ops', rest)
    → Read ops r ops' rest
unfolding read_operations kind_bytes
read_operations_inv zero ops r ops' rest h = cc
read_operations_inv (suc f) ops [] ops' rest h = cc
read_operations_inv (suc f) ops (zero ∷ r) ops' rest h =
    unfold spec_bytes in ([], cc (append-nil ops), cc)
read_operations_inv (suc f) ops (suc zero ∷ r) ops' rest h =
    Read-one_more reverse_bits ops r ops' rest
      (read_operations_inv f (ops ++ fresh reverse_bits ∷ []) r ops' rest h)
read_operations_inv (suc f) ops (suc (suc zero) ∷ []) ops' rest h = cc
read_operations_inv (suc f) ops (suc (suc zero) ∷ n ∷ r) ops' rest h =
    Read-one_more (xor n) ops r ops' rest
      (read_operations_inv f (ops ++ fresh (xor n) ∷ []) r ops' rest h)
read_operations_inv (suc f) ops (suc (suc (suc zero)) ∷ r) ops' rest h =
    Read-one_more xor_pos ops r ops' rest
      (read_operations_inv f (ops ++ fresh xor_pos ∷ []) r ops' rest h)
read_operations_inv (suc f) ops (suc (suc (suc (suc zero))) ∷ []) ops' rest h = cc
read_operations_inv (suc f) ops (suc (suc (suc (suc zero))) ∷ n ∷ r) ops' rest h =
    Read-one_more (add n) ops r ops' rest
      (read_operations_inv f (ops ++ fresh (add n) ∷ []) r ops' rest h)
read_operations_inv (suc f) ops (suc (suc (suc (suc (suc zero)))) ∷ r) ops' rest h =
    Read-one_more add_pos ops r ops' rest
      (read_operations_inv f (ops ++ fresh add_pos ∷ []) r ops' rest h)
read_operations_inv (suc f) ops (suc (suc (suc (suc (suc (suc c))))) ∷ r) ops' rest h = ground arith

not_refused :
    (b : Bool) (y x : List Operation × Bytes)
    → ◌≡◌ {A = Result Error (List Operation × Bytes)} (if b then err no_op else ok y) (ok x)
    → (y ≡ x) × (b ≡ false)
not_refused true y x h = cc
not_refused false y x h = (ok-injective h, refl)

validated :
    (ops : List Operation) (rest : Bytes) (x : List Operation × Bytes)
    → validate (ops, rest) ≡ ok x
    → ((ops, rest) ≡ x) × ((read_all (copies ops) data_validation).1 ≢ data_validation)
validated ops rest x h =
    let out = (read_all (copies ops) data_validation).1 in
    let (same, differs) = not_refused (bytes_eq data_validation out) (ops, rest) x h in
    (same, λ q. cc (differs, (bytes_eq_iff data_validation out).1 (sym q)))

-- Whatever is accepted is the bytes of ciphers, which are returned at their starting positions, with
-- the rest of the stream; and they do not leave the validation text as it is.
pub read_cipher_spec_sound :
    (r : Bytes) (ops : List Operation) (rest : Bytes)
    → read_cipher_spec r ≡ ok (ops, rest)
    → (ks : List Kind) × (ops ≡ operations ks)
      × (r ≡ spec_bytes ks ++ rest)
      × ((read_all (copies ops) data_validation).1 ≢ data_validation)
unfolding read_cipher_spec
read_cipher_spec_sound r ops rest h =
    let ((ops1, rest1), e, e') = >>=-eq-ok (read_operations (length r + 1) [] r) _ h in
    let (ks, same, whole) = read_operations_inv (length r + 1) [] r ops1 rest1 e in
    let (valid, changed) = validated ops1 rest1 (ops, rest) e' in
    let at : ops1 ≡ ops = cc valid in
    let at' : rest1 ≡ rest = cc valid in
    (
      ks,
      sym at ∙ same,
      whole ∙ ap (λ (t : Bytes). spec_bytes ks ++ t) at',
      λ q. changed (ap (λ (t : List Operation). (read_all (copies t) data_validation).1) at ∙ q),
    )
