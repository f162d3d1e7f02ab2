-- ===== src/Chat.antt =====
-- 3-budget-chat/main.go: the chat room, its looper and the sessions. Here a call that holds the lock is one
-- step; Chat/Lock interleaves them. What was written to the connection of a session is a text.
mod Tests
pub mod Text
pub mod Delivery
pub mod Members
pub mod Rooms
pub mod Broken
pub mod Lock
use protohackers.Prelude.{
  ℕ, zero, suc, ◌+◌, Bool, true, false, ◌&&◌, ◌||◌, List, [], ◌∷◌, ◌++◌, Option, none, some, Bytes,
  codes, bytes_eq, ◌==◌, ltb, leb, if◌then◌else◌, length,
}

-- `strings.Trim` with the cutset "\r\n".
abbrev pub is_cut : ℕ → Bool
is_cut c = (c == 13) || (c == 10)

unfoldable pub trim_left : Bytes → Bytes
trim_left [] = []
trim_left (c ∷ cs) = let rest = trim_left cs in if is_cut c then rest else c ∷ cs

abbrev pub keep : ℕ → Bytes → Bytes
keep c [] = if is_cut c then [] else c ∷ []
keep c (d ∷ ds) = c ∷ d ∷ ds

unfoldable pub trim_right : Bytes → Bytes
trim_right [] = []
trim_right (c ∷ cs) = keep c (trim_right cs)

abbrev pub trim : Bytes → Bytes
trim s = trim_right (trim_left s)

pub data EventType : Type 0 where
  unknown message join leave : EventType

pub record Event : Type 0 where
  pub user : Bytes
  pub type : EventType
  pub text : Bytes  -- `Message`

-- A session is the number of its connection. The list of users is in the order in which a loop over the map
-- meets them, which Go leaves open.
pub record ChatRoom : Type 0 where
  pub users : List (Bytes × ℕ)
  pub event : List Event
  pub written : ℕ → Bytes

abbrev pub new_room : ChatRoom
new_room = record { users = []; event = []; written = λ i. [] }

abbrev pub event_text : EventType → Bytes → Bytes → Bytes
event_text join user text = codes "* " ++ user ++ codes " has entered the room"
event_text leave user text = codes "* " ++ user ++ codes " has left the room"
event_text message user text = codes "[" ++ user ++ codes "] " ++ text
event_text unknown user text = []

abbrev pub text_of : Event → Bytes
text_of e = event_text e.type e.user e.text

unfoldable pub send_message : ℕ → Bytes → ChatRoom → ChatRoom
send_message id msg r = record r {
  written = λ i. if i == id then r.written i ++ (trim msg ++ 10 ∷ []) else r.written i;
}

-- The loop over the users, for one event.
unfoldable pub broadcast : Event → List (Bytes × ℕ) → ChatRoom → ChatRoom
broadcast e [] r = r
broadcast e ((name, id) ∷ users) r =
    broadcast e users (if bytes_eq name e.user then r else send_message id (text_of e) r)

-- A round of the looper; none if it waits.
abbrev pub after_event : ChatRoom → List Event → Option ChatRoom
after_event r [] = none
after_event r (e ∷ es) = some (broadcast e r.users (record r { event = es }))

unfoldable pub looper_round : ChatRoom → Option ChatRoom
looper_round r = after_event r r.event

abbrev pub capacity : ℕ
capacity = 100

-- A send to the channel; none if it blocks.
unfoldable pub send_event : Event → ChatRoom → Option ChatRoom
send_event e r =
    if length r.event == capacity then none else some (record r { event = r.event ++ e ∷ [] })

abbrev pub has_user : Bytes → List (Bytes × ℕ) → Bool
has_user name [] = false
has_user name ((n, id) ∷ users) = bytes_eq name n || has_user name users

abbrev pub without_user : Bytes → List (Bytes × ℕ) → List (Bytes × ℕ)
without_user name [] = []
without_user name ((n, id) ∷ users) =
    let rest = without_user name users in if bytes_eq name n then rest else (n, id) ∷ rest

-- The order of `sort.Strings`.
abbrev pub le_bytes : Bytes → Bytes → Bool
le_bytes [] t = true
le_bytes (c ∷ s) [] = false
le_bytes (c ∷ s) (d ∷ t) = let rest = le_bytes s t in if c == d then rest else ltb c d

abbrev pub insert_name : Bytes → List Bytes → List Bytes
insert_name n [] = n ∷ []
insert_name n (m ∷ ms) =
    let rest = insert_name n ms in if le_bytes n m then n ∷ m ∷ ms else m ∷ rest

abbrev pub sort_names : List Bytes → List Bytes
sort_names [] = []
sort_names (n ∷ ns) = insert_name n (sort_names ns)

abbrev pub other_names : Bytes → List (Bytes × ℕ) → List Bytes
other_names name [] = []
other_names name ((n, id) ∷ users) =
    let rest = other_names name users in if bytes_eq n name then rest else n ∷ rest

abbrev pub join_names : List Bytes → Bytes
join_names [] = []
join_names (n ∷ []) = n
join_names (n ∷ m ∷ ms) = n ++ codes ", " ++ join_names (m ∷ ms)

abbrev pub present_text : Bytes → List (Bytes × ℕ) → Bytes
present_text name users =
    codes "* The room contains: " ++ join_names (sort_names (other_names name users))

-- What `ChatRoom.register` ends with. It is `broken` if the list of users cannot be written to the
-- connection.
pub data Registered : Type 0 where
  taken blocked : Registered
  entered broken : ChatRoom → Registered

abbrev pub notify : Bytes → ℕ → Bool → Option ChatRoom → Registered
notify name id can_write none = blocked
notify name id can_write (some r) =
    if can_write then entered (send_message id (present_text name r.users) r) else broken r

unfoldable pub register : Bytes → ℕ → Bool → ChatRoom → Registered
register name id can_write r =
    let e : Event = record { user = name; type = join; text = [] } in
    if has_user name r.users
    then taken
    else notify name id can_write (send_event e (record r { users = (name, id) ∷ r.users }))

unfoldable pub leave_room : Bytes → ChatRoom → Option ChatRoom
leave_room name r =
    send_event (record { user = name; type = leave; text = [] })
      (record r { users = without_user name r.users })

abbrev pub is_alphanumeric : ℕ → Bool
is_alphanumeric c =
    (leb b'0' c && leb c b'9') || (leb b'A' c && leb c b'Z') || (leb b'a' c && leb c b'z')

abbrev pub all_alphanumeric : Bytes → Bool
all_alphanumeric [] = true
all_alphanumeric (c ∷ cs) = is_alphanumeric c && all_alphanumeric cs

-- `regexName`
abbrev pub is_name : Bytes → Bool
is_name s = (leb 1 (length s) && leb (length s) 50) && all_alphanumeric s

abbrev pub add_byte : ℕ → Option (Bytes × Bytes) → Option (Bytes × Bytes)
add_byte c none = none
add_byte c (some (s, rest)) = some (c ∷ s, rest)

-- `ReadBytes('\n')`
unfoldable pub read_bytes : Bytes → Option (Bytes × Bytes)
read_bytes [] = none
read_bytes (c ∷ cs) =
    let more = add_byte c (read_bytes cs) in if c == 10 then some (c ∷ [], cs) else more

abbrev pub trimmed : Option (Bytes × Bytes) → Option (Bytes × Bytes)
trimmed none = none
trimmed (some (raw, rest)) = some (trim raw, rest)

unfoldable pub read_message : Bytes → Option (Bytes × Bytes)
read_message s = trimmed (read_bytes s)

-- What the registration of a session ends with: with its name and the rest of its input it is `inside`; a
-- session that has `ended` never runs `leave`.
pub data Session : Type 0 where
  inside : (name rest : Bytes) → ChatRoom → Session
  ended : ChatRoom → Session
  waits : Session

abbrev pub after_register : ℕ → Bytes → Bytes → ChatRoom → Registered → Session
after_register id name rest r taken = ended (send_message id (codes "user already exist") r)
after_register id name rest r blocked = waits
after_register id name rest r (entered r') = inside name rest r'
after_register id name rest r (broken r') = ended r'

abbrev pub named : ℕ → Bool → ChatRoom → Option (Bytes × Bytes) → Session
named id can_write r none = ended r
named id can_write r (some (name, rest)) =
    if is_name name
    then after_register id name rest r (register name id can_write r)
    else ended (send_message id (codes "invalid user name") r)

-- `Session.register` on the input of the session. Of the writes only that of the list of users may fail.
unfoldable pub sign_in : ℕ → Bool → Bytes → ChatRoom → Session
sign_in id can_write input r =
    named id can_write (send_message id (codes "Welcome to budgetchat! What shall I call you?") r)
      (read_message input)

-- A round of the session's reader, for a message that `read_message` gave; none if the channel blocks.
unfoldable pub say : Bytes → Bytes → ChatRoom → Option ChatRoom
say name text r = send_event (record { user = name; type = message; text = text }) r
