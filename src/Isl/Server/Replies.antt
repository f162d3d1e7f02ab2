-- ===== src/Isl/Server/Replies.antt =====
-- 8-insecure-sockets-layer/isl/server.go: what a client reads of a connection.
use protohackers.Prelude.{
  ℕ, zero, suc, ◌+◌, ◌≤◌, ◌<◌, ◌≡◌, ◌∙◌, refl, sym, ap, inl, inr, Bool-cases, ◌==◌, false, List, [],
  ◌∷◌, ◌++◌, append-nil, append_assoc, Bytes, length, length-append, All, All-append, IsByte, arith,
}
use protohackers.Prelude.TextLines.{
  begin_with, lines, lines-append, begin_with-append, begin_with-nil,
}
use protohackers.Isl.Cipher.{Kind, Operation, fresh, copies, write_all, read_all}
use protohackers.Isl.Cipher.Inverse.{AreByteKinds, read_all-write_all}
use protohackers.Isl.Cipher.Chunks.{write_chunks, join, write_chunks-join}
use protohackers.Isl.Cipher.Spec.{spec_bytes, operations, is_no_op, read_cipher_spec-spec_bytes}
use protohackers.Isl.Slices.{Slice, found, full, ended, read_slice, read_slice_lem, Cuts}
use protohackers.Isl.Server.{max_line_length, reply, after_slice, conn_loop, handle_conn}

module _ (handler : Bytes → List Bytes) where
  abbrev pub replies : List Bytes → List Bytes
  replies [] = []
  replies (l ∷ ls) = reply handler l ++ replies ls

  slice_replies :
      (rounds size : ℕ) (buf_line s : Bytes) (r : Slice)
      → 0 < size
      → length s ≤ rounds
      → ((b t : Bytes)
          → length t < rounds
          → conn_loop handler rounds size b t ≡ replies (begin_with b (lines t)))
      → Cuts size 10 s r
      → after_slice handler (conn_loop handler rounds size) buf_line r
        ≡ replies (begin_with buf_line (lines s))
  slice_replies rounds size buf_line s (found a rest) posi le next (without, e) =
      let rest_lines : conn_loop handler rounds size [] rest ≡ replies (lines rest) =
        (next [] rest (omega (arith, ap length e, length-append a (10 ∷ rest)))
          ∙ ap replies (begin_with-nil (lines rest))) in
      let first : lines s ≡ a ∷ lines rest =
        (ap lines e
          ∙ lines-append a (10 ∷ rest) without
          ∙ ap (λ (l : Bytes). l ∷ lines rest) (append-nil a)) in
      rw (rest_lines, first) refl
  slice_replies rounds size buf_line s (full a rest) posi le next (without, e, n) =
      next (buf_line ++ a) rest (omega (arith, ap length e, length-append a rest))
      ∙ ap replies (
          begin_with-append buf_line a (lines rest)
          ∙ ap (begin_with buf_line) (sym (lines-append a rest without) ∙ ap lines (sym e)))
  slice_replies rounds size buf_line s (ended a) posi le next (without, e) =
      let none_left : lines s ≡ [] =
        (ap lines (e ∙ sym (append-nil a)) ∙ lines-append a [] without) in
      rw none_left refl

  -- Whatever the size of the buffer and the length of the lines, each line has its reply, in their order.
  pub conn_loop_lem :
      (rounds size : ℕ) (buf_line s : Bytes)
      → 0 < size
      → length s < rounds
      → conn_loop handler rounds size buf_line s ≡ replies (begin_with buf_line (lines s))
  unfolding conn_loop
  conn_loop_lem zero size buf_line s posi lt = absurd (omega arith)
  conn_loop_lem (suc rounds) size buf_line s posi lt =
      slice_replies rounds size buf_line s (read_slice size 10 s) posi (omega arith)
        (λ b t lt'. conn_loop_lem rounds size b t posi lt') (read_slice_lem size 10 s)

pub join-append : (xs ys : List Bytes) → join (xs ++ ys) ≡ join xs ++ join ys
unfolding join
join-append [] ys = refl
join-append (x ∷ xs) ys =
    ap (λ (t : Bytes). x ++ t) (join-append xs ys) ∙ sym (append_assoc x (join xs) (join ys))

begin_with-bytes :
    (start : Bytes) (ls : List Bytes)
    → All IsByte start
    → All (All IsByte) ls
    → All (All IsByte) (begin_with start ls)
begin_with-bytes start [] b bs = tt
begin_with-bytes start (l ∷ ls) b (bl, bs) = (All-append IsByte start l b bl, bs)

lines-bytes : (s : Bytes) → All IsByte s → All (All IsByte) (lines s)
lines-bytes [] bytes = tt
lines-bytes (c ∷ cs) (b, bytes) =
    let rest = lines-bytes cs bytes in
    let longer = begin_with-bytes (c ∷ []) (lines cs) (b, tt) rest in
    elim (Bool-cases (c == 10)) [
      | inl newline ↦ rw newline (tt, rest)
      | inr other ↦ rw other longer
    ]

replies-bytes :
    (handler : Bytes → List Bytes)
    → ((l : Bytes) → All IsByte l → All IsByte (join (handler l)))
    → (ls : List Bytes) → All (All IsByte) ls
    → All IsByte (join (replies handler ls))
unfolding join
replies-bytes handler writes_bytes [] bytes = tt
replies-bytes handler writes_bytes (l ∷ ls) (b, bytes) =
    rw
      (join-append (reply handler l) (replies handler ls), join-append (handler l) ((10 ∷ []) ∷ []))
      (All-append IsByte (join (handler l) ++ join ((10 ∷ []) ∷ [])) (join (replies handler ls))
        (All-append IsByte (join (handler l)) (join ((10 ∷ []) ∷ [])) (writes_bytes l b)
          (omega arith, tt))
        (replies-bytes handler writes_bytes ls bytes))

copies-operations : (ks : List Kind) → copies (operations ks) ≡ operations ks
copies-operations [] = refl
copies-operations (k ∷ ks) = ap (λ (ops : List Operation). fresh k ∷ ops) (copies-operations ks)

-- A client sends a spec that is not refused and, through its ciphers, a text of bytes, and reads the answer
-- through ciphers of its own: it has the replies of the handler to each line of the text, each with its
-- newline, in their order; if what the handler writes for a line of bytes is bytes.
pub handle_conn_lem :
    (handler : Bytes → List Bytes) (ks : List Kind) (text : Bytes)
    → is_no_op ks ≡ false
    → AreByteKinds (operations ks)
    → All IsByte text
    → ((l : Bytes) → All IsByte l → All IsByte (join (handler l)))
    → let sent = spec_bytes ks ++ (write_all (operations ks) text).1 in
      (read_all (operations ks) (handle_conn handler sent)).1 ≡ join (replies handler (lines text))
unfolding handle_conn
handle_conn_lem handler ks text is_op kinds bytes writes_bytes =
    let same = copies-operations ks in
    let decoded =
      ap (λ (p : List Operation × Bytes). p.1)
        (read_all-write_all (operations ks) text kinds bytes) in
    rw (read_cipher_spec-spec_bytes ks (write_all (operations ks) text).1, is_op, same, decoded)
      (ap (λ cs. (read_all (operations ks) (write_chunks (operations ks) cs)).1)
          (conn_loop_lem handler (length text + 1) max_line_length [] text (omega arith)
              (omega arith)
            ∙ ap (replies handler) (begin_with-nil (lines text)))
        ∙ ap (λ t. (read_all (operations ks) t).1)
            (write_chunks-join (operations ks) (replies handler (lines text)))
        ∙ ap (λ (p : List Operation × Bytes). p.1)
            (read_all-write_all (operations ks) (join (replies handler (lines text))) kinds
              (replies-bytes handler writes_bytes (lines text) (lines-bytes text bytes))))
