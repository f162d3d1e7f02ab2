-- ===== src/Database.antt =====
-- 4-unusual-database-program/main.go: a packet to the database. A packet is cut to 1024 bytes before.
mod Tests
pub mod Packets
use protohackers.Prelude.{
  ℕ, suc, Bool, List, [], ◌∷◌, ◌++◌, Option, none, some, Bytes, bytes_eq, codes, ◌==◌,
  if◌then◌else◌,
}

-- `val map[string]string`, with the empty text for a key that is not there.
pub record Database : Type 0 where
  pub val : Bytes → Bytes

abbrev pub empty_database : Database
empty_database = record { val = λ k. [] }

abbrev with_byte : ℕ → Bytes × Option Bytes → Bytes × Option Bytes
with_byte c (key, rest) = (c ∷ key, rest)

-- `strings.SplitN(packet, "=", 2)`: the text before the first `=`, and what is behind it if there is one.
unfoldable pub split_packet : Bytes → Bytes × Option Bytes
split_packet [] = ([], none)
split_packet (c ∷ p) =
    let later = with_byte c (split_packet p) in if c == b'=' then ([], some p) else later

abbrev pub version_key : Bytes
version_key = codes "version"

abbrev pub version_value : Bytes
version_value = codes "Ken's Key-Value Store 1.0"

abbrev pub handle_split : Database → Bytes × Option Bytes → Database × Option Bytes
handle_split db (key, some val) = (
  if bytes_eq key version_key
      then db
      else record { val = λ k. if bytes_eq k key then val else db.val k },
  none,
)
handle_split db (key, none) =
    (db, some (key ++ b'=' ∷ (if bytes_eq key version_key then version_value else db.val key)))

-- `handlePacket`: the database, and the packet that is sent back, if any.
unfoldable pub handle_packet : Database → Bytes → Database × Option Bytes
handle_packet db packet = handle_split db (split_packet packet)
