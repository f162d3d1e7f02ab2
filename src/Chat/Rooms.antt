-- ===== src/Chat/Rooms.antt =====
-- 3-budget-chat/main.go: the rooms that the calls of sessions and rounds of the looper lead to, in any order.
use protohackers.Prelude.{
  ℕ, suc, ◌≡◌, ◌∙◌, inl, inr, refl, sym, ap, subst, Bool, true, List, [], ◌∷◌, ◌++◌, some, Bytes,
  length, arith,
}
use protohackers.Prelude.TextLines.{lines}
use protohackers.Chat.{
  message, ChatRoom, new_room, looper_round, leave_room, is_name, read_message, inside, ended,
  sign_in, say,
}
use protohackers.Chat.Text.{IsMessage, read_message-IsMessage}
use protohackers.Chat.Delivery.{HasMember, loop, texts_for, loop-texts_for}
use protohackers.Chat.Members.{
  AreNames, IsRoom, IsSent, IsSettled, send_event-IsSent, sign_in-IsSettled, leave_room-IsSent,
  looper_round-IsSent,
}

-- Connections are numbered as they come; `next` is the next one.
pub data Steps (next : ℕ) (r : ChatRoom) : ℕ → ChatRoom → Type 0 where
  enters :
      (can_write : Bool) (input name rest : Bytes) {r' : ChatRoom}
      → sign_in next can_write input r ≡ inside name rest r'
      → Steps next r (suc next) r'
  fails :
      (can_write : Bool) (input : Bytes) {r' : ChatRoom}
      → sign_in next can_write input r ≡ ended r'
      → Steps next r (suc next) r'
  says :
      (name : Bytes) (id : ℕ) (input text rest : Bytes) {r' : ChatRoom}
      → HasMember name id r.users
      → read_message input ≡ some (text, rest)
      → say name text r ≡ some r'
      → Steps next r next r'
  leaves :
      (name : Bytes) (id : ℕ) {r' : ChatRoom}
      → HasMember name id r.users
      → leave_room name r ≡ some r'
      → Steps next r next r'
  loops : {r' : ChatRoom} → looper_round r ≡ some r' → Steps next r next r'

pub data Reach : ℕ → ChatRoom → Type 0 where
  begin : Reach 0 new_room
  later : {k n : ℕ} {r r' : ChatRoom} → Reach k r → Steps k r n r' → Reach n r'

member-name :
    (name : Bytes) (id : ℕ) (users : List (Bytes × ℕ))
    → AreNames users
    → HasMember name id users
    → is_name name ≡ true
member-name name id [] names has = absurd has
member-name name id ((n, i) ∷ users) (is_n, _, _) (inl (same, _)) = ap is_name (sym same) ∙ is_n
member-name name id ((n, i) ∷ users) (_, _, names) (inr has) = member-name name id users names has

say-IsSent :
    (next : ℕ) (name text : Bytes) (r : ChatRoom)
    → IsRoom next r
    → is_name name ≡ true
    → IsMessage text
    → IsSent next (say name text r)
unfolding say
say-IsSent next name text r v is_a_name is_text =
    send_event-IsSent next (record { user = name; type = message; text = text }) r v
      (is_a_name, is_text, λ e. cc)

Steps-IsRoom : {k n : ℕ} {r r' : ChatRoom} → IsRoom k r → Steps k r n r' → IsRoom n r'
unfolding looper_round
Steps-IsRoom {k} {n} {r} v (enters can_write input name rest e) =
    subst (IsSettled (suc k)) e (sign_in-IsSettled k can_write input r v)
Steps-IsRoom {k} {n} {r} v (fails can_write input e) =
    subst (IsSettled (suc k)) e (sign_in-IsSettled k can_write input r v)
Steps-IsRoom {k} {n} {r} v (says name id input text rest has read e) = subst (IsSent k) e (
    say-IsSent k name text r v (member-name name id r.users v.names has)
      (read_message-IsMessage input text rest read))
Steps-IsRoom {k} {n} {r} v (leaves name id has e) =
    subst (IsSent k) e (leave_room-IsSent k name r v (member-name name id r.users v.names has))
Steps-IsRoom {k} {n} {r} v (loops e) = subst (IsSent k) e (looper_round-IsSent k r.event r v refl)

-- In every room that the calls lead to, in any order, the names are valid and each is there once, no
-- session is there twice, and the channel holds at most its capacity of events, all of them of sessions.
pub Reach-IsRoom : {n : ℕ} {r : ChatRoom} → Reach n r → IsRoom n r
Reach-IsRoom begin = record {
  names = tt;
  distinct = tt;
  below = tt;
  events = tt;
  fits = omega arith;
}
Reach-IsRoom (later r s) = Steps-IsRoom (Reach-IsRoom r) s

-- In such a room, when the looper has taken the events that wait, a member has read the texts of those of
-- the others, each on a line of its own, in their order, and nothing else.
pub delivered :
    {n : ℕ} (r : ChatRoom) (name : Bytes) (id : ℕ)
    → Reach n r
    → HasMember name id r.users
    → let r' = loop (length r.event) r in
      (new : Bytes) × (r'.written id ≡ r.written id ++ new)
      × (lines new ≡ texts_for name r.event)
      × (r'.event ≡ [])
delivered r name id reach has =
    let v = Reach-IsRoom reach in loop-texts_for r name id v.distinct has v.events
