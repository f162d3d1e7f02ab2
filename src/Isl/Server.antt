-- ===== src/Isl/Server.antt =====
-- 8-insecure-sockets-layer/isl/server.go: a connection, its spec and its lines. What a handler writes is a
-- list of writes. The replies to a line are written before the next line is read; the bytes do not depend
-- on it.
pub mod Replies
use protohackers.Prelude.{ℕ, zero, suc, ◌+◌, List, [], ◌∷◌, ◌++◌, Result, ok, err, Bytes, length}
use protohackers.Isl.Cipher.{Operation, Error, copies, read_cipher_spec, read_all}
use protohackers.Isl.Cipher.Chunks.{write_chunks}
use protohackers.Isl.Slices.{Slice, found, full, ended, read_slice}

abbrev pub max_line_length : ℕ
max_line_length = 5000

module _ (handler : Bytes → List Bytes) where
  -- The replies to a line: those of the handler, and a newline.
  abbrev pub reply : Bytes → List Bytes
  reply line = handler line ++ (10 ∷ []) ∷ []

  -- A round, with `bufLine` and what `ReadSlice` gave; `more` is the next round.
  abbrev pub after_slice : (Bytes → Bytes → List Bytes) → Bytes → Slice → List Bytes
  after_slice more buf_line (found slice rest) = reply (buf_line ++ slice) ++ more [] rest
  after_slice more buf_line (full slice rest) = more (buf_line ++ slice) rest
  after_slice more buf_line (ended slice) = []

  -- The loop over the lines. A round takes a byte at least.
  unfoldable pub conn_loop : ℕ → ℕ → Bytes → Bytes → List Bytes
  conn_loop zero size buf_line s = []
  conn_loop (suc rounds) size buf_line s =
      after_slice (conn_loop rounds size) buf_line (read_slice size 10 s)

  -- The plain text is what the cipher reader gives of the rest of the stream.
  abbrev pub with_spec : Result Error (List Operation × Bytes) → Bytes
  with_spec (err e) = []
  with_spec (ok (ops, rest)) =
      let text = (read_all (copies ops) rest).1 in
      write_chunks (copies ops) (conn_loop (length text + 1) max_line_length [] text)

  -- The bytes that the connection writes, for the bytes that it reads.
  unfoldable pub handle_conn : Bytes → Bytes
  handle_conn r = with_spec (read_cipher_spec r)
