-- ===== src/Lrcp/Session/Panics.antt =====
-- 7-line-reversal/lrcp/session.go: a datagram that stops the server by a slice out of range.
use protohackers.Prelude.{ℕ, ◌+◌, ◌≤◌, ◌<◌, ◌^◌, ◌≡◌, Bytes, arith}
use protohackers.Prelude.Int.{pos, negsuc, ◌-ℤ◌, wrap32}
use protohackers.Lrcp.Session.{Session, panic, handle_data}

-- The offset of a segment is computed in int32: a position so far below zero that it overflows
-- gives a negative index, and the server panics.
pub negative_position_panics :
    (s : Session) (n k : ℕ) (d : Bytes)
    → s.len_total_incoming ≡ pos n
    → n < 2 ^ 31
    → k < 2 ^ 31
    → 2 ^ 31 ≤ n + k + 1
    → handle_data (negsuc k) d s ≡ panic
unfolding handle_data ◌-ℤ◌ wrap32
negative_position_panics s n k d e hn hk over = ground arith
