-- ===== src/Database/Tests.antt =====
-- 4-unusual-database-program/main.go: the result at three insertions.
use protohackers.Prelude.{◌≡◌, List, [], ◌∷◌, ◌++◌, some, Bytes, codes, arith}
use protohackers.Database.{empty_database, version_key, version_value, handle_packet}
use protohackers.Database.Packets.{insert_all, last_value, handle_packet-insert_all}

abbrev insertions : List (Bytes × Bytes)
insertions = (codes "a", codes "1") ∷ (codes "version", codes "2") ∷ (codes "a", codes "3=") ∷ []

handle_packet-insert_all_example :
    ((handle_packet (insert_all insertions empty_database) (codes "a")).1
      ≡ some (codes "a" ++ b'=' ∷ last_value (codes "a") [] insertions))
    × ((handle_packet (insert_all insertions empty_database) version_key).1
        ≡ some (version_key ++ b'=' ∷ version_value))
handle_packet-insert_all_example =
    handle_packet-insert_all insertions (codes "a") (ground arith) (ground arith) (λ e. cc)
