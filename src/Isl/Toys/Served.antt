-- ===== src/Isl/Toys/Served.antt =====
-- 8-insecure-sockets-layer: a line of toys through the ciphers of a connection, and its answer.
use protohackers.Prelude.{
  ◌≡◌, ◌∙◌, ap, false, List, [], ◌∷◌, ◌++◌, append-nil, Bytes, All, All-append, IsByte, arith,
}
use protohackers.Prelude.TextLines.{lines, HasNoNewline, lines-append}
use protohackers.Isl.Cipher.{Kind, write_all, read_all}
use protohackers.Isl.Cipher.Inverse.{AreByteKinds}
use protohackers.Isl.Cipher.Chunks.{join}
use protohackers.Isl.Cipher.Spec.{spec_bytes, operations, is_no_op}
use protohackers.Isl.Server.{handle_conn}
use protohackers.Isl.Server.Replies.{replies, join-append, handle_conn_lem}
use protohackers.Isl.Toys.{Toy, handle_line}
use protohackers.Isl.Toys.Decode.{toy_text, toys_text, IsToy}
use protohackers.Isl.Toys.Best.{IsSort, IsBest, handle_line-toys_text}
use protohackers.Isl.Toys.Writes.{handle_line-bytes}

one_line : (s : Bytes) → HasNoNewline s → lines (s ++ 10 ∷ []) ≡ s ∷ []
one_line s without = lines-append s (10 ∷ []) without ∙ ap (λ (l : Bytes). l ∷ []) (append-nil s)

join-reply :
    (handler : Bytes → List Bytes) (l : Bytes)
    → join (replies handler (l ∷ [])) ≡ join (handler l) ++ 10 ∷ []
unfolding join
join-reply handler l =
    ap join (append-nil (handler l ++ (10 ∷ []) ∷ [])) ∙ join-append (handler l) ((10 ∷ []) ∷ [])

-- A client whose spec is not refused sends, through its ciphers, one line with a toy or more, and reads the
-- answer through ciphers of its own: it is one line with a toy among them that has as many copies as any.
pub toys_served :
    (sort : List Toy → List Toy) (ks : List Kind) (toy : Toy) (toys : List Toy)
    → IsSort sort
    → is_no_op ks ≡ false
    → AreByteKinds (operations ks)
    → All IsToy (toy ∷ toys)
    → All IsByte (toys_text toy toys)
    → HasNoNewline (toys_text toy toys)
    → let line = toys_text toy toys ++ 10 ∷ [] in
      let sent = spec_bytes ks ++ (write_all (operations ks) line).1 in
      (t : Toy) × IsBest t (toy ∷ toys)
      × ((read_all (operations ks) (handle_conn (handle_line sort) sent)).1 ≡ toy_text t ++ 10 ∷ [])
toys_served sort ks toy toys is_sort is_op kinds are_toys bytes without =
    let text = toys_text toy toys in
    let (t, best, answered) = handle_line-toys_text sort toy toys is_sort are_toys in
    (
      t,
      best,
      handle_conn_lem (handle_line sort) ks (text ++ 10 ∷ []) is_op kinds
            (All-append IsByte text (10 ∷ []) bytes (omega arith, tt))
            (λ l h. handle_line-bytes sort l is_sort h)
          ∙ ap (λ ls. join (replies (handle_line sort) ls)) (one_line text without)
          ∙ join-reply (handle_line sort) text
          ∙ ap (λ s. s ++ 10 ∷ []) answered,
    )
