-- ===== src/Chat/Members.antt =====
-- 3-budget-chat/main.go: the members of the room, and the events that they make, in any order of the calls.
use protohackers.Prelude.{
  ℕ, suc, ◌<◌, ◌≤◌, ◌≡◌, inl, inr, refl, sym, ap, subst, Bool, true, false, Bool-cases, ==_iff,
  List, [], ◌∷◌, Option, none, some, Bytes, bytes_eq, All, All-append, length, length-append, ◌==◌,
  arith,
}
use protohackers.Chat.{
  Event, ChatRoom, send_message, after_event, capacity, send_event, has_user, without_user,
  Registered, taken, blocked, entered, broken, notify, register, present_text, leave_room, is_name,
  read_message, Session, inside, ended, waits, after_register, named, sign_in,
}
use protohackers.Chat.Text.{IsEvent, nil-EndsWell}
use protohackers.Chat.Delivery.{IsFresh, Distinct, broadcast_room}

-- Each name is there once.
abbrev pub AreNames : List (Bytes × ℕ) → Type 0
AreNames [] = Unit
AreNames ((n, id) ∷ users) = (is_name n ≡ true) × (has_user n users ≡ false) × AreNames users

abbrev AllBelow : ℕ → List (Bytes × ℕ) → Type 0
AllBelow k = All (λ (u : Bytes × ℕ). u.1 < k)

-- Connections are numbered from 0 as they come; `next` is the next one.
pub record IsRoom (next : ℕ) (r : ChatRoom) : Type 0 where
  pub names : AreNames r.users
  pub distinct : Distinct r.users
  pub below : AllBelow next r.users
  pub events : All IsEvent r.event
  pub fits : length r.event ≤ capacity

IsFresh-below : (k : ℕ) (users : List (Bytes × ℕ)) → AllBelow k users → IsFresh k users
IsFresh-below k [] below = tt
IsFresh-below k ((n, i) ∷ users) (lt, below) =
    ((λ e. omega (arith, e)), IsFresh-below k users below)

AllBelow-suc : (k : ℕ) (users : List (Bytes × ℕ)) → AllBelow k users → AllBelow (suc k) users
AllBelow-suc k [] below = tt
AllBelow-suc k ((n, i) ∷ users) (lt, below) = (omega arith, AllBelow-suc k users below)

has_user-without :
    (name other : Bytes) (users : List (Bytes × ℕ))
    → has_user other users ≡ false
    → has_user other (without_user name users) ≡ false
has_user-without name other [] e = refl
has_user-without name other ((n, i) ∷ users) e =
    let rest = has_user-without name other users in
    elim (Bool-cases (bytes_eq name n)) [
      | inl same ↦ rw same (rest (ground arith))
      | inr differs ↦ rw differs (ground (arith, rest))
    ]

IsFresh-without :
    (name : Bytes) (id : ℕ) (users : List (Bytes × ℕ))
    → IsFresh id users
    → IsFresh id (without_user name users)
IsFresh-without name id [] fresh = tt
IsFresh-without name id ((n, i) ∷ users) (ne, fresh) =
    let rest = IsFresh-without name id users fresh in
    elim (Bool-cases (bytes_eq name n)) [
      | inl same ↦ rw same rest
      | inr differs ↦ rw differs (ne, rest)
    ]

-- The members that are left.
abbrev AreMembers : ℕ → List (Bytes × ℕ) → Type 0
AreMembers next users = AreNames users × (Distinct users × AllBelow next users)

AreMembers-without :
    (name : Bytes) (next : ℕ) (users : List (Bytes × ℕ))
    → AreMembers next users
    → AreMembers next (without_user name users)
AreMembers-without name next [] members = members
AreMembers-without name next ((n, i) ∷ users)
      ((is_n, once, names), ((fresh, distinct), (lt, below))) =
    let rest = AreMembers-without name next users (names, (distinct, below)) in
    elim (Bool-cases (bytes_eq name n)) [
      | inl same ↦ rw same rest
      | inr differs ↦ rw differs (
        (is_n, has_user-without name n users once, rest.0),
        ((IsFresh-without name i users fresh, rest.1.0), (lt, rest.1.1)),
      )
    ]

-- A send that does not block.
abbrev pub IsSent : ℕ → Option ChatRoom → Type 0
IsSent next none = Unit
IsSent next (some r) = IsRoom next r

pub send_event-IsSent :
    (next : ℕ) (e : Event) (r : ChatRoom) → IsRoom next r → IsEvent e → IsSent next (send_event e r)
unfolding send_event
send_event-IsSent next e r v is_event = elim (Bool-cases (length r.event == capacity)) [
  | inl full ↦ rw full tt
  | inr room ↦ rw room (record {
    names = v.names;
    distinct = v.distinct;
    below = v.below;
    events = All-append IsEvent r.event (e ∷ []) v.events (is_event, tt);
    fits = ground (arith, v.fits, ==_iff (length r.event) capacity, length-append r.event (e ∷ []));
  })
]

send_message-IsRoom :
    (next id : ℕ) (msg : Bytes) (r : ChatRoom) → IsRoom next r → IsRoom next (send_message id msg r)
unfolding send_message
send_message-IsRoom next id msg r v = record {
  names = v.names;
  distinct = v.distinct;
  below = v.below;
  events = v.events;
  fits = v.fits;
}

later-IsRoom : (next : ℕ) (r : ChatRoom) → IsRoom next r → IsRoom (suc next) r
later-IsRoom next r v = record {
  names = v.names;
  distinct = v.distinct;
  below = AllBelow-suc next r.users v.below;
  events = v.events;
  fits = v.fits;
}

-- A session inside, or one that has ended, leaves the room well.
abbrev pub IsSettled : ℕ → Session → Type 0
IsSettled next (inside name rest r) = IsRoom next r
IsSettled next (ended r) = IsRoom next r
IsSettled next waits = Unit

abbrev IsRegistered : ℕ → Registered → Type 0
IsRegistered next taken = Unit
IsRegistered next blocked = Unit
IsRegistered next (entered r) = IsRoom next r
IsRegistered next (broken r) = IsRoom next r

notify-IsRegistered :
    (next id : ℕ) (name : Bytes) (can_write : Bool) (o : Option ChatRoom)
    → IsSent next o
    → IsRegistered next (notify name id can_write o)
notify-IsRegistered next id name can_write none v = tt
notify-IsRegistered next id name true (some r) v =
    send_message-IsRoom next id (present_text name r.users) r v
notify-IsRegistered next id name false (some r) v = v

register-IsRegistered :
    (next : ℕ) (name : Bytes) (can_write : Bool) (r : ChatRoom)
    → IsRoom next r
    → is_name name ≡ true
    → IsRegistered (suc next) (register name next can_write r)
unfolding register
register-IsRegistered next name can_write r v is_a_name =
    elim (Bool-cases (has_user name r.users)) [
      | inl there ↦ rw there tt
      | inr new ↦
          let users = (name, next) ∷ r.users in
          rw new (
            notify-IsRegistered (suc next) next name can_write _ (
              send_event-IsSent (suc next) _ (record r { users = users })
                (record {
                  names = (is_a_name, new, v.names);
                  distinct = (IsFresh-below next r.users v.below, v.distinct);
                  below = (omega arith, AllBelow-suc next r.users v.below);
                  events = v.events;
                  fits = v.fits;
                })
                (is_a_name, (tt, nil-EndsWell), λ e. cc)))
    ]

after_register-IsSettled :
    (next id : ℕ) (name rest : Bytes) (r : ChatRoom) (o : Registered)
    → IsRoom next r
    → IsRegistered next o
    → IsSettled next (after_register id name rest r o)
after_register-IsSettled next id name rest r taken v o = send_message-IsRoom next id _ r v
after_register-IsSettled next id name rest r blocked v o = tt
after_register-IsSettled next id name rest r (entered r') v o = o
after_register-IsSettled next id name rest r (broken r') v o = o

named-IsSettled :
    (next : ℕ) (can_write : Bool) (r : ChatRoom) (o : Option (Bytes × Bytes))
    → IsRoom next r
    → IsSettled (suc next) (named next can_write r o)
named-IsSettled next can_write r none v = later-IsRoom next r v
named-IsSettled next can_write r (some (name, rest)) v = elim (Bool-cases (is_name name)) [
  | inl is_a_name ↦ rw is_a_name (
      after_register-IsSettled (suc next) next name rest r _ (later-IsRoom next r v)
        (register-IsRegistered next name can_write r v is_a_name))
  | inr other ↦ rw other (send_message-IsRoom (suc next) next _ r (later-IsRoom next r v))
]

pub sign_in-IsSettled :
    (next : ℕ) (can_write : Bool) (input : Bytes) (r : ChatRoom)
    → IsRoom next r
    → IsSettled (suc next) (sign_in next can_write input r)
unfolding sign_in
sign_in-IsSettled next can_write input r v =
    named-IsSettled next can_write _ (read_message input) (send_message-IsRoom next next _ r v)

pub leave_room-IsSent :
    (next : ℕ) (name : Bytes) (r : ChatRoom)
    → IsRoom next r
    → is_name name ≡ true
    → IsSent next (leave_room name r)
unfolding leave_room
leave_room-IsSent next name r v is_a_name =
    let (names, (distinct, below)) =
      AreMembers-without name next r.users (v.names, (v.distinct, v.below)) in
    send_event-IsSent next _ (record r { users = without_user name r.users })
      (record {
        names = names;
        distinct = distinct;
        below = below;
        events = v.events;
        fits = v.fits;
      })
      (is_a_name, (tt, nil-EndsWell), λ e. cc)

pub looper_round-IsSent :
    (next : ℕ) (es : List Event) (r : ChatRoom)
    → IsRoom next r
    → r.event ≡ es
    → IsSent next (after_event r es)
looper_round-IsSent next [] r v e = tt
looper_round-IsSent next (ev ∷ es) r v e =
    let start : ChatRoom = record r { event = es } in
    let (users, event) = broadcast_room ev r.users start in
    record {
      names = subst AreNames (sym users) v.names;
      distinct = subst Distinct (sym users) v.distinct;
      below = subst (AllBelow next) (sym users) v.below;
      events = subst (All IsEvent) (sym event) (subst (All IsEvent) e v.events).1;
      fits = omega (arith, ap length event, ap length e, v.fits);
    }
