-- ===== src/Database/Packets.antt =====
-- 4-unusual-database-program/main.go: what a query answers after any packets.
use protohackers.Prelude.{
  ◌≡◌, ◌≢◌, refl, sym, ap, ◌∙◌, Bool-cases, inl, inr, false, List, [], ◌∷◌, ◌++◌, none, some, Bytes,
  All, bytes_eq, bytes_eq_iff, if◌then◌else◌, arith,
}
use protohackers.Database.{
  Database, empty_database, split_packet, version_key, version_value, handle_packet,
}

-- A key has no `=`.
abbrev pub IsKey : Bytes → Type 0
IsKey k = All (λ c. c ≢ b'=') k

split_packet-insert : (k v : Bytes) → IsKey k → split_packet (k ++ b'=' ∷ v) ≡ (k, some v)
unfolding split_packet
split_packet-insert [] v h = refl
split_packet-insert (c ∷ k) v (hc, h) = ground (arith, split_packet-insert k v h)

split_packet-query : (k : Bytes) → IsKey k → split_packet k ≡ (k, none)
unfolding split_packet
split_packet-query [] h = refl
split_packet-query (c ∷ k) (hc, h) = ground (arith, split_packet-query k h)

-- Insertions in the order in which they arrive.
pub insert_all : List (Bytes × Bytes) → Database → Database
insert_all [] db = db
insert_all ((k, v) ∷ ps) db = insert_all ps (handle_packet db (k ++ b'=' ∷ v)).0

-- The value that was inserted last under the key, or the first one if there is none.
pub last_value : Bytes → Bytes → List (Bytes × Bytes) → Bytes
last_value k first [] = first
last_value k first ((l, v) ∷ ps) = last_value k (if bytes_eq k l then v else first) ps

abbrev pub AreKeys : List (Bytes × Bytes) → Type 0
AreKeys = All (λ (p : Bytes × Bytes). IsKey p.0)

-- One insertion.
val-insert :
    (k l v : Bytes) (db : Database)
    → bytes_eq k version_key ≡ false
    → IsKey l
    → (handle_packet db (l ++ b'=' ∷ v)).0.val k ≡ (if bytes_eq k l then v else db.val k)
unfolding handle_packet
val-insert k l v db n hl =
    rw (split_packet-insert l v hl) (elim (Bool-cases (bytes_eq l version_key)) [
      | inl reserved ↦
          let other : bytes_eq k l ≡ false = (elim (Bool-cases (bytes_eq k l)) [
            | inl same ↦ cc (
                sym n
                ∙ ap (λ (b : Bytes). bytes_eq b version_key) ((bytes_eq_iff k l).0 same)
                ∙ reserved)
            | inr other ↦ other
          ]) in
          rw (reserved, other) refl
      | inr free ↦ rw free refl
    ])

val-insert_all :
    (k : Bytes) (ps : List (Bytes × Bytes)) (db : Database)
    → bytes_eq k version_key ≡ false
    → AreKeys ps
    → (insert_all ps db).val k ≡ last_value k (db.val k) ps
unfolding insert_all last_value
val-insert_all k [] db n h = refl
val-insert_all k ((l, v) ∷ ps) db n (hl, h) =
    val-insert_all k ps (handle_packet db (l ++ b'=' ∷ v)).0 n h
    ∙ ap (λ (b : Bytes). last_value k b ps) (val-insert k l v db n hl)

-- After any insertions into an empty database, a query of a key other than the version is answered with
-- the key and the value that was inserted last under it, or none; and a query of the version with the
-- version, whatever was inserted under it.
pub handle_packet-insert_all :
    (ps : List (Bytes × Bytes)) (k : Bytes)
    → AreKeys ps
    → IsKey k
    → k ≢ version_key
    → ((handle_packet (insert_all ps empty_database) k).1 ≡ some (k ++ b'=' ∷ last_value k [] ps))
      × ((handle_packet (insert_all ps empty_database) version_key).1
          ≡ some (version_key ++ b'=' ∷ version_value))
unfolding handle_packet
handle_packet-insert_all ps k hs hk ne =
    let n : bytes_eq k version_key ≡ false = (elim (Bool-cases (bytes_eq k version_key)) [
      | inl same ↦ absurd (ne ((bytes_eq_iff k version_key).0 same))
      | inr other ↦ other
    ]) in
    (
      rw (split_packet-query k hk, n)
          (ap (λ (b : Bytes). some (k ++ b'=' ∷ b)) (val-insert_all k ps empty_database n hs)),
      rw (split_packet-query version_key (ground arith)) refl,
    )
