-- ===== src/Chat/Broken.antt =====
-- 3-budget-chat/main.go, `register`: the name of a session whose connection fails in the registration.
use protohackers.Prelude.{
  ℕ, suc, ◌≡◌, ◌≢◌, ◌∙◌, inl, inr, refl, sym, ap, subst, Bool, true, false, List, [], ◌∷◌, Option,
  none, some, Bytes, codes, bytes_eq, bytes_eq_iff, length, ◌==◌, arith, Bool-cases,
}
use protohackers.Chat.{
  Event, ChatRoom, after_event, looper_round, send_event, send_message, has_user, without_user,
  capacity, Registered, taken, blocked, entered, broken, notify, register, leave_room, is_name,
  read_message, Session, inside, ended, waits, after_register, named, sign_in, say,
}
use protohackers.Chat.Delivery.{HasMember, broadcast_room}
use protohackers.Chat.Members.{AreNames}
use protohackers.Chat.Rooms.{Steps, enters, fails, says, leaves, loops, Reach, later, Reach-IsRoom}

has_user_lem :
    (name : Bytes) (id : ℕ) (users : List (Bytes × ℕ))
    → HasMember name id users
    → has_user name users ≡ true
has_user_lem name id [] has = absurd has
has_user_lem name id ((n, i) ∷ users) (inl (is_n, _)) = rw ((bytes_eq_iff name n).1 (sym is_n)) refl
has_user_lem name id ((n, i) ∷ users) (inr has) =
    let there = has_user_lem name id users has in ground arith

-- A name is of one session.
same_session :
    (name : Bytes) (id id' : ℕ) (users : List (Bytes × ℕ))
    → AreNames users
    → HasMember name id users
    → HasMember name id' users
    → id ≡ id'
same_session name id id' [] names has has' = absurd has
same_session name id id' ((n, i) ∷ users) (_, once, names) (inl (is_n, is_i)) (inl (is_n', is_i')) =
    sym is_i ∙ is_i'
same_session name id id' ((n, i) ∷ users) (_, once, names) (inl (is_n, _)) (inr has') =
    cc (sym once ∙ ap (λ (m : Bytes). has_user m users) is_n ∙ has_user_lem name id' users has')
same_session name id id' ((n, i) ∷ users) (_, once, names) (inr has) (inl (is_n, _)) =
    cc (sym once ∙ ap (λ (m : Bytes). has_user m users) is_n ∙ has_user_lem name id users has)
same_session name id id' ((n, i) ∷ users) (_, once, names) (inr has) (inr has') =
    same_session name id id' users names has has'

HasMember-without :
    (name other : Bytes) (id : ℕ) (users : List (Bytes × ℕ))
    → other ≢ name
    → HasMember name id users
    → HasMember name id (without_user other users)
HasMember-without name other id [] ne has = has
HasMember-without name other id ((n, i) ∷ users) ne has = elim (Bool-cases (bytes_eq other n)) [
  | inl same ↦ rw same (elim has [
    | inl (is_n, _) ↦ absurd (ne ((bytes_eq_iff other n).0 same ∙ is_n))
    | inr more ↦ HasMember-without name other id users ne more
  ])
  | inr differs ↦ rw differs (elim has [
    | inl here ↦ inl here
    | inr more ↦ inr (HasMember-without name other id users ne more)
  ])
]

-- The step is no `leave` of the session `id`.
abbrev pub IsNoLeave : ℕ → {k n : ℕ} {r r' : ChatRoom} → Steps k r n r' → Type 0
IsNoLeave id (leaves n i has e) = i ≢ id
IsNoLeave id _ = Unit

module _ (name : Bytes) (id : ℕ) where
  abbrev StaysIn : Option ChatRoom → Type 0
  StaysIn none = Unit
  StaysIn (some r) = HasMember name id r.users

  abbrev StaysRegistered : Registered → Type 0
  StaysRegistered (entered r) = HasMember name id r.users
  StaysRegistered (broken r) = HasMember name id r.users
  StaysRegistered _ = Unit

  abbrev StaysSigned : Session → Type 0
  StaysSigned (inside n rest r) = HasMember name id r.users
  StaysSigned (ended r) = HasMember name id r.users
  StaysSigned waits = Unit

  send_event-StaysIn :
      (e : Event) (r : ChatRoom) → HasMember name id r.users → StaysIn (send_event e r)
  unfolding send_event
  send_event-StaysIn e r has = elim (Bool-cases (length r.event == capacity)) [
    | inl full ↦ rw full tt
    | inr room ↦ rw room has
  ]

  notify-StaysRegistered :
      (n : Bytes) (i : ℕ) (can_write : Bool) (o : Option ChatRoom)
      → StaysIn o
      → StaysRegistered (notify n i can_write o)
  unfolding send_message
  notify-StaysRegistered n i can_write none has = tt
  notify-StaysRegistered n i true (some r) has = has
  notify-StaysRegistered n i false (some r) has = has

  register-StaysRegistered :
      (n : Bytes) (i : ℕ) (can_write : Bool) (r : ChatRoom)
      → HasMember name id r.users
      → StaysRegistered (register n i can_write r)
  unfolding register
  register-StaysRegistered n i can_write r has = elim (Bool-cases (has_user n r.users)) [
    | inl there ↦ rw there tt
    | inr new ↦ rw new (notify-StaysRegistered n i can_write _ (send_event-StaysIn _ _ (inr has)))
  ]

  after_register-StaysSigned :
      (i : ℕ) (n rest : Bytes) (r : ChatRoom) (o : Registered)
      → HasMember name id r.users
      → StaysRegistered o
      → StaysSigned (after_register i n rest r o)
  unfolding send_message
  after_register-StaysSigned i n rest r taken has o = has
  after_register-StaysSigned i n rest r blocked has o = tt
  after_register-StaysSigned i n rest r (entered r') has o = o
  after_register-StaysSigned i n rest r (broken r') has o = o

  named-StaysSigned :
      (i : ℕ) (can_write : Bool) (r : ChatRoom) (o : Option (Bytes × Bytes))
      → HasMember name id r.users
      → StaysSigned (named i can_write r o)
  unfolding send_message
  named-StaysSigned i can_write r none has = has
  named-StaysSigned i can_write r (some (n, rest)) has = elim (Bool-cases (is_name n)) [
    | inl is_a_name ↦
        rw is_a_name (
          after_register-StaysSigned i n rest r _ has
            (register-StaysRegistered n i can_write r has))
    | inr no_name ↦ rw no_name has
  ]

  sign_in-StaysSigned :
      (i : ℕ) (can_write : Bool) (input : Bytes) (r : ChatRoom)
      → HasMember name id r.users
      → StaysSigned (sign_in i can_write input r)
  unfolding sign_in send_message
  sign_in-StaysSigned i can_write input r has =
      named-StaysSigned i can_write _ (read_message input) has

  after_event-StaysIn :
      (r : ChatRoom) (es : List Event) → HasMember name id r.users → StaysIn (after_event r es)
  after_event-StaysIn r [] has = tt
  after_event-StaysIn r (e ∷ es) has =
      subst (HasMember name id) (sym (broadcast_room e r.users (record r { event = es })).0) has

  Steps-HasMember :
      {k n : ℕ} {r r' : ChatRoom} (s : Steps k r n r')
      → AreNames r.users
      → IsNoLeave id s
      → HasMember name id r.users
      → HasMember name id r'.users
  unfolding say leave_room looper_round
  Steps-HasMember {k} {n} {r} (enters can_write input m rest e) names no_leave has =
      subst StaysSigned e (sign_in-StaysSigned k can_write input r has)
  Steps-HasMember {k} {n} {r} (fails can_write input e) names no_leave has =
      subst StaysSigned e (sign_in-StaysSigned k can_write input r has)
  Steps-HasMember {k} {n} {r} (says m i input text rest there read e) names no_leave has =
      subst StaysIn e (send_event-StaysIn _ r has)
  Steps-HasMember {k} {n} {r} (leaves m i there e) names no_leave has =
      let other : m ≢ name = (λ same. no_leave (
        same_session name i id r.users names
          (subst (λ (l : Bytes). HasMember l i r.users) same there) has)) in
      subst StaysIn e (send_event-StaysIn _ _ (HasMember-without name m id r.users other has))
  Steps-HasMember {k} {n} {r} (loops e) names no_leave has =
      subst StaysIn e (after_event-StaysIn r r.event has)

-- Steps that lead from one room to another, none of them a `leave` of the session `id`.
pub data Goes (id : ℕ) (k : ℕ) (r : ChatRoom) : ℕ → ChatRoom → Type 0 where
  rests : Goes id k r k r
  goes :
      {m n : ℕ} {r' r'' : ChatRoom}
      → Goes id k r m r'
      → (s : Steps m r' n r'') → IsNoLeave id s
      → Goes id k r n r''

Goes-HasMember :
    (name : Bytes) (id : ℕ) {k : ℕ} {r : ChatRoom} {n : ℕ} {r' : ChatRoom}
    → Reach k r
    → HasMember name id r.users
    → Goes id k r n r'
    → Reach n r' × HasMember name id r'.users
Goes-HasMember name id reach has rests = (reach, has)
Goes-HasMember name id reach has (goes run s no_leave) =
    let (reach', has') = Goes-HasMember name id reach has run in
    let v = Reach-IsRoom reach' in (later reach' s, Steps-HasMember name id s v.names no_leave has')

refused :
    (name : Bytes) (id id' : ℕ) (can_write : Bool) (r : ChatRoom)
    → HasMember name id r.users
    → register name id' can_write r ≡ taken
unfolding register
refused name id id' can_write r has = rw (has_user_lem name id r.users has) refl

-- A registration that is not refused, and whose last write fails, leaves the session in the map.
failed-HasMember :
    (name rest : Bytes) (id : ℕ) (r : ChatRoom) {r' : ChatRoom}
    → has_user name r.users ≡ false
    → after_register id name rest r (register name id false r) ≡ ended r'
    → HasMember name id r'.users
unfolding register send_event
failed-HasMember name rest id r new e = elim (Bool-cases (length r.event == capacity)) [
  | inl full ↦ cc (rw (new, full) at e)
  | inr room ↦ subst (StaysSigned name id) (rw (new, room) at e) (inl (refl, refl))
]

signed-HasMember :
    (name rest : Bytes) (id : ℕ) (input : Bytes) (r : ChatRoom) {r' : ChatRoom}
    → read_message input ≡ some (name, rest)
    → is_name name ≡ true
    → has_user name r.users ≡ false
    → sign_in id false input r ≡ ended r'
    → HasMember name id r'.users
unfolding sign_in send_message
signed-HasMember name rest id input r read is_a_name new signed =
    failed-HasMember name rest id
      (send_message id (codes "Welcome to budgetchat! What shall I call you?") r) new
      (rw (read, is_a_name) at signed)

-- In any room that the calls lead to, a session gives a valid name that nobody has, and its registration
-- ends because its connection fails while the list of users is written to it, so that it never runs
-- `leave`. Then, whatever the others do from then on, in any order, its name is refused to everyone.
pub broken_name_taken :
    {k : ℕ} {r r' : ChatRoom} {n : ℕ} {r'' : ChatRoom} (input name rest : Bytes) (id : ℕ)
    (can_write : Bool)
    → Reach k r
    → read_message input ≡ some (name, rest)
    → is_name name ≡ true
    → has_user name r.users ≡ false
    → sign_in k false input r ≡ ended r'
    → Goes k (suc k) r' n r''
    → register name id can_write r'' ≡ taken
broken_name_taken {k} {r} {r'} {n} {r''} input name rest id can_write reach read is_a_name new
      signed run =
    let there = signed-HasMember name rest k input r read is_a_name new signed in
    let (_, has) = Goes-HasMember name k (later reach (fails false input signed)) there run in
    refused name k id can_write r'' has
