-- ===== src/Means/Tests.antt =====
-- 2-means-to-an-end: the session of the problem's statement, with a price below zero.
use protohackers.Prelude.{◌≢◌, ◌≡◌, refl, List, [], ◌∷◌, ◌++◌, ok, arith}
use protohackers.Prelude.Int.{ℤ, pos, negsuc, ◌≤ℤ◌, ◌+ℤ◌, wrap32}
use protohackers.Means.{
  Message, insert, query, Prices, sum_prices, handle_message, int32_to_bytes, handle_session,
  closed, session_loop, unmarshal_message, mean_price,
}
use protohackers.Means.Session.{bytes_of, finish, transcript, handle_session-bytes_of}
use protohackers.Means.Bounds.{IsMean, mean_price_lem}

abbrev messages : List Message
messages =
    insert (pos 12345) (pos 101)
    ∷ insert (pos 12346) (negsuc 1)
    ∷ query (pos 12288) (pos 16384)
    ∷ []

-- The mean of 101 and -2 is 49.
session_run : handle_session (bytes_of messages) ≡ closed (0 ∷ 0 ∷ 0 ∷ 49 ∷ [])
unfolding handle_session session_loop unmarshal_message handle_message mean_price sum_prices ◌+ℤ◌
    wrap32
session_run = refl

handle_session-bytes_of_example :
    handle_session (bytes_of messages ++ 73 ∷ []) ≡ finish (73 ∷ []) (transcript [] messages)
handle_session-bytes_of_example =
    handle_session-bytes_of messages (73 ∷ []) (ground arith) (omega arith)

abbrev prices : Prices
prices = (pos 3, negsuc 6) ∷ (pos 2, pos 4) ∷ (pos 9, pos 100) ∷ []

mean_price_lem_example :
    (mean : ℤ) × (handle_message prices (query (pos 1) (pos 5)) ≡ ok (prices, int32_to_bytes mean))
    × IsMean (negsuc 6 ∷ pos 4 ∷ []) mean
    × (negsuc 6 ∷ pos 4 ∷ [] ≢ [] → (negsuc 6 ≤ℤ mean) × (mean ≤ℤ pos 4))
mean_price_lem_example =
    mean_price_lem (negsuc 6) (pos 4) (pos 1) (pos 5) prices (omega arith) (omega arith)
      (ground arith)
