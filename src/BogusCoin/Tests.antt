-- ===== src/BogusCoin/Tests.antt =====
-- 5-mob-in-the-middle: the results at a line with an address.
use protohackers.Prelude.{◌≡◌, ◌++◌, ◌∷◌, [], map, Bytes, codes, arith}
use protohackers.BogusCoin.{replace_bogus_coin, forward, bogus_coin_modifier}
use protohackers.BogusCoin.Forward.{forward-unlines}
use protohackers.Prelude.TextLines.{unlines}
use protohackers.BogusCoin.Words.{rewrite_line, replace_bogus_coin-rewrite_line}

abbrev payment : Bytes
payment = codes "pay 7F1u3wSD5RbOHQmupo9nx4TnhQ now"

abbrev own_address : Bytes
own_address = codes "7YWHMfk9JZe0LM0g1ZauHuiSxhI"

replace_bogus_coin-rewrite_line_example :
    replace_bogus_coin payment own_address ≡ rewrite_line own_address payment
replace_bogus_coin-rewrite_line_example = replace_bogus_coin-rewrite_line payment own_address

forward-unlines_example :
    (forward [] (unlines (payment ∷ []) ++ codes "more") ≡ unlines (payment ∷ []))
    × (forward (bogus_coin_modifier own_address ∷ []) (unlines (payment ∷ []) ++ codes "more")
        ≡ unlines (map (rewrite_line own_address) (payment ∷ [])))
forward-unlines_example =
    forward-unlines own_address (payment ∷ []) (codes "more") (ground arith) (ground arith)
