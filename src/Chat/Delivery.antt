-- ===== src/Chat/Delivery.antt =====
-- 3-budget-chat/main.go: what a member reads of the events.
use protohackers.Prelude.{
  ℕ, zero, suc, ◌≡◌, ◌≢◌, ◌∙◌, ◌⊎◌, inl, inr, refl, sym, ap, subst, true, false, Bool-cases, ==_iff,
  List, [], ◌∷◌, ◌++◌, append-nil, append_assoc, none, some, Bytes, bytes_eq, All, length, ◌==◌,
  if◌then◌else◌, arith,
}
use protohackers.Prelude.TextLines.{lines, HasNoNewline}
use protohackers.Chat.{
  trim, Event, text_of, ChatRoom, send_message, broadcast, after_event, looper_round,
}
use protohackers.Chat.Text.{unlines, lines-unlines, IsEvent, text_of-IsPlain}

-- No session is in the map twice.
abbrev pub IsFresh : ℕ → List (Bytes × ℕ) → Type 0
IsFresh id = All (λ (u : Bytes × ℕ). u.1 ≢ id)

abbrev pub Distinct : List (Bytes × ℕ) → Type 0
Distinct [] = Unit
Distinct ((n, id) ∷ users) = IsFresh id users × Distinct users

abbrev pub HasMember : Bytes → ℕ → List (Bytes × ℕ) → Type 0
HasMember name id [] = ⊥
HasMember name id ((n, i) ∷ users) = ((n ≡ name) × (i ≡ id)) ⊎ HasMember name id users

-- What a member of that name is written for an event.
abbrev pub written_for : Bytes → Event → Bytes
written_for name e = if bytes_eq name e.user then [] else trim (text_of e) ++ 10 ∷ []

sent : Bytes → ℕ → Event → ChatRoom → ChatRoom
sent name id e r = if bytes_eq name e.user then r else send_message id (text_of e) r

sent-other :
    (name : Bytes) (id i : ℕ) (e : Event) (r : ChatRoom)
    → id ≢ i
    → (sent name id e r).written i ≡ r.written i
unfolding sent send_message
sent-other name id i e r ne = elim (Bool-cases (bytes_eq name e.user)) [
  | inl own ↦ rw own refl
  | inr other ↦
      let differs : (i == id) ≡ false = (ground (arith, ==_iff i id)) in rw (other, differs) refl
]

sent-own :
    (name : Bytes) (id : ℕ) (e : Event) (r : ChatRoom)
    → (sent name id e r).written id ≡ r.written id ++ written_for name e
unfolding sent send_message
sent-own name id e r = elim (Bool-cases (bytes_eq name e.user)) [
  | inl own ↦ rw own (sym (append-nil (r.written id)))
  | inr other ↦ let same : (id == id) ≡ true = ((==_iff id id).1 refl) in rw (other, same) refl
]

broadcast_cons :
    (e : Event) (name : Bytes) (id : ℕ) (users : List (Bytes × ℕ)) (r : ChatRoom)
    → broadcast e ((name, id) ∷ users) r ≡ broadcast e users (sent name id e r)
unfolding broadcast sent
broadcast_cons e name id users r = refl

-- Who is not in the map is written nothing.
broadcast_outside :
    (e : Event) (users : List (Bytes × ℕ)) (id : ℕ) (r : ChatRoom)
    → IsFresh id users
    → (broadcast e users r).written id ≡ r.written id
unfolding broadcast sent
broadcast_outside e [] id r fresh = refl
broadcast_outside e ((n, i) ∷ users) id r (ne, fresh) =
    broadcast_outside e users id (sent n i e r) fresh ∙ sent-other n i id e r ne

broadcast_inside :
    (e : Event) (users : List (Bytes × ℕ)) (name : Bytes) (id : ℕ) (r : ChatRoom)
    → Distinct users
    → HasMember name id users
    → (broadcast e users r).written id ≡ r.written id ++ written_for name e
unfolding broadcast sent
broadcast_inside e [] name id r distinct has = absurd has
broadcast_inside e ((n, i) ∷ users) name id r (fresh, distinct) (inl (is_name, is_id)) =
    let own = sent-own n i e r in
    rw (← is_name) (rw (← is_id) (broadcast_outside e users i (sent n i e r) fresh ∙ own))
broadcast_inside e ((n, i) ∷ users) name id r (fresh, distinct) (inr later) =
    broadcast_inside e users name id (sent n i e r) distinct later
    ∙ ap (λ t. t ++ written_for name e)
        (sent-other n i id e r (λ same. not_there users fresh later same))
  where
    not_there : (us : List (Bytes × ℕ)) → IsFresh i us → HasMember name id us → i ≡ id → ⊥
    not_there [] fresh has same = has
    not_there ((m, k) ∷ us) (ne, fresh) (inl (_, is_id)) same = ne (is_id ∙ sym same)
    not_there ((m, k) ∷ us) (ne, fresh) (inr has) same = not_there us fresh has same

sent_room :
    (name : Bytes) (id : ℕ) (e : Event) (r : ChatRoom)
    → ((sent name id e r).users ≡ r.users) × ((sent name id e r).event ≡ r.event)
unfolding sent send_message
sent_room name id e r = elim (Bool-cases (bytes_eq name e.user)) [
  | inl own ↦ rw own (refl, refl)
  | inr other ↦ rw other (refl, refl)
]

pub broadcast_room :
    (e : Event) (users : List (Bytes × ℕ)) (r : ChatRoom)
    → ((broadcast e users r).users ≡ r.users) × ((broadcast e users r).event ≡ r.event)
unfolding broadcast sent
broadcast_room e [] r = (refl, refl)
broadcast_room e ((n, i) ∷ users) r =
    let (a, b) = broadcast_room e users (sent n i e r) in
    let (c, d) = sent_room n i e r in (a ∙ c, b ∙ d)

-- Rounds of the looper, at most as many as the first argument.
unfoldable pub loop : ℕ → ChatRoom → ChatRoom
loop zero r = r
loop (suc rounds) r = elim (looper_round r) [ none ↦ r | some r' ↦ loop rounds r' ]

-- What the events have for a member: the texts of those of others.
abbrev pub texts_for : Bytes → List Event → List Bytes
texts_for name [] = []
texts_for name (e ∷ es) =
    let rest = texts_for name es in if bytes_eq name e.user then rest else text_of e ∷ rest

texts_for-HasNoNewline :
    (name : Bytes) (es : List Event) → All IsEvent es → All HasNoNewline (texts_for name es)
texts_for-HasNoNewline name [] good = tt
texts_for-HasNoNewline name (e ∷ es) (is_event, good) =
    let rest = texts_for-HasNoNewline name es good in
    let plain = (text_of-IsPlain e is_event).0 in
    elim (Bool-cases (bytes_eq name e.user)) [
      | inl own ↦ rw own rest
      | inr other ↦ rw other (plain, rest)
    ]

-- One event, and then the others.
next_text :
    (name : Bytes) (e : Event) (es : List Event)
    → IsEvent e
    → written_for name e ++ unlines (texts_for name es) ≡ unlines (texts_for name (e ∷ es))
next_text name e es is_event =
    let plain = (text_of-IsPlain e is_event).1 in
    elim (Bool-cases (bytes_eq name e.user)) [
      | inl own ↦ rw own refl
      | inr other ↦ rw other (ap (λ t. (t ++ 10 ∷ []) ++ unlines (texts_for name es)) plain)
    ]

loop_lem :
    (es : List Event) (r : ChatRoom) (name : Bytes) (id : ℕ)
    → r.event ≡ es
    → Distinct r.users
    → HasMember name id r.users
    → All IsEvent es
    → let r' = loop (length es) r in
      (r'.written id ≡ r.written id ++ unlines (texts_for name es))
      × (r'.event ≡ [])
      × (r'.users ≡ r.users)
unfolding loop looper_round
loop_lem [] r name id waiting distinct has good = (sym (append-nil (r.written id)), waiting, refl)
loop_lem (e ∷ es) r name id waiting distinct has (is_event, good) =
    let start : ChatRoom = record r { event = es } in
    let r1 = broadcast e r.users start in
    let (users, event) = broadcast_room e r.users start in
    let (written, emptied, same) =
      loop_lem es r1 name id event (subst Distinct (sym users) distinct)
        (subst (HasMember name id) (sym users) has) good in
    let step : after_event r r.event ≡ some r1 = (ap (after_event r) waiting) in
    rw (step, loop)
      (
        written
            ∙ ap (λ t. t ++ unlines (texts_for name es))
                (broadcast_inside e r.users name id start distinct has)
            ∙ append_assoc (r.written id) (written_for name e) (unlines (texts_for name es))
            ∙ ap (λ t. r.written id ++ t) (next_text name e es is_event),
        emptied,
        same ∙ users,
      )

-- The looper takes all events that wait; a member reads the texts of those of the others, each on a line of
-- its own, in their order, and nothing else, if the events are those that sessions make.
pub loop-texts_for :
    (r : ChatRoom) (name : Bytes) (id : ℕ)
    → Distinct r.users
    → HasMember name id r.users
    → All IsEvent r.event
    → let r' = loop (length r.event) r in
      (new : Bytes) × (r'.written id ≡ r.written id ++ new)
      × (lines new ≡ texts_for name r.event)
      × (r'.event ≡ [])
loop-texts_for r name id distinct has good =
    let (written, emptied, _) = loop_lem r.event r name id refl distinct has good in
    (
      unlines (texts_for name r.event),
      written,
      lines-unlines (texts_for name r.event) (texts_for-HasNoNewline name r.event good),
      emptied,
    )
