-- ===== src/Isl/Tests.antt =====
-- 8-insecure-sockets-layer: the results at concrete specs and texts.
use protohackers.Prelude.{
  ◌≡◌, ◌≢◌, refl, List, [], ◌∷◌, ◌++◌, ok, Bytes, codes, arith, All, IsByte, append-nil,
}
use protohackers.Isl.Cipher.{
  Kind, xor, add, add_pos, reverse_bits, read_all, copies, data_validation, read_cipher_spec,
  decode_byte, decode_bytes, advance, read_op, read_operations,
}
use protohackers.Isl.Cipher.Chunks.{write_chunks, read_chunks, join, read_chunks-write_chunks}
use protohackers.Isl.Cipher.Spec.{spec_bytes, operations, read_cipher_spec_sound}

abbrev kinds : List Kind
kinds = xor 1 ∷ reverse_bits ∷ add_pos ∷ []

abbrev text : Bytes
text = codes "4x dog"

abbrev parts : List Bytes
parts = codes "4x " ∷ codes "dog" ∷ []

abbrev encoded : List Bytes
encoded = write_chunks (operations kinds) parts ∷ []

encoded-join : join encoded ≡ write_chunks (operations kinds) parts
unfolding join
encoded-join = append-nil _

parts-bytes : All IsByte (join parts)
unfolding join
parts-bytes = ground arith

read_chunks-write_chunks_example : read_chunks (operations kinds) encoded ≡ join parts
read_chunks-write_chunks_example =
    read_chunks-write_chunks (operations kinds) parts encoded (ground arith) parts-bytes
      encoded-join

abbrev stream : Bytes
stream = 4 ∷ 1 ∷ 0 ∷ text

stream-reads : read_cipher_spec stream ≡ ok (operations (add 1 ∷ []), text)
unfolding read_cipher_spec read_operations read_all read_op decode_bytes decode_byte advance
stream-reads = refl

read_cipher_spec_sound_example :
    (ks : List Kind) × (operations (add 1 ∷ []) ≡ operations ks)
    × (stream ≡ spec_bytes ks ++ text)
    × ((read_all (copies (operations (add 1 ∷ []))) data_validation).1 ≢ data_validation)
read_cipher_spec_sound_example =
    read_cipher_spec_sound stream (operations (add 1 ∷ [])) text stream-reads
