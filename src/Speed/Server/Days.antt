-- ===== src/Speed/Server/Days.antt =====
-- 6-speed-daemon/main.go, `SendTicket`: no plate is ticketed twice for a day.
use protohackers.Prelude.{
  ℕ, zero, suc, ◌+◌, ◌≤◌, ◌≡◌, ◌≢◌, ◌⊎◌, refl, inl, inr, ap, Bool, true, false, ◌&&◌, ◌||◌, List,
  [], ◌∷◌, Bytes, bytes_eq, bytes_eq_refl, ◌↔◌, length, ltb, leb, ◌==◌, if◌then◌else◌, arith, All,
  Bool-cases,
}
use protohackers.Speed.Message.{Ticket}
use protohackers.Speed.Server.{
  Server, empty_server, Sending, sent, suppressed, day, rounds, any_day_sent, mark_days,
  send_ticket, receive, chan_size, Gauge, PositionLog, insert_log,
}

-- A day is among `n` days from `i`.
abbrev pub within : ℕ → ℕ → ℕ → Bool
within i n d = leb i d && ltb d (i + n)

any_day_sent-within :
    (found : ℕ → Bool) (i n d : ℕ)
    → any_day_sent found i n ≡ false
    → within i n d ≡ true
    → found d ≡ false
unfolding any_day_sent
any_day_sent-within found i zero d h w = ground arith
any_day_sent-within found i (suc n) d h w = elim (Bool-cases (i == d)) [
  | inl e ↦ ground arith
  | inr e ↦ ground (arith, any_day_sent-within found (i + 1) n d)
]

pub any_day_sent_found :
    (found : ℕ → Bool) (i n : ℕ)
    → any_day_sent found i n ≡ true
    → (d : ℕ) × (within i n d ≡ true) × (found d ≡ true)
unfolding any_day_sent
any_day_sent_found found i zero h = cc
any_day_sent_found found i (suc n) h = elim (Bool-cases (found i)) [
  | inl e ↦ (i, ground arith, e)
  | inr e ↦
      let (d, w, f) = any_day_sent_found found (i + 1) n (ground arith) in (d, ground arith, f)
]

-- Afterwards a day is marked if it was, or if it is one of the `n` days from `i` and the plate is `p`.
pub mark_days_lem :
    (p : Bytes) (i n : ℕ) (m : Bytes → ℕ → Bool) (q : Bytes) (d : ℕ)
    → mark_days p i n m q d ≡ ((bytes_eq q p && within i n d) || m q d)
unfolding mark_days
mark_days_lem p i zero m q d = ground arith
mark_days_lem p i (suc n) m q d = ground (
  arith,
  mark_days_lem p (i + 1) n
      (λ (q : Bytes) (d : ℕ). if bytes_eq q p && (d == i) then true else m q d) q d,
)

-- The ticket is for the day `d`.
abbrev pub Covers : Ticket → ℕ → Type 0
Covers t d = (day t.timestamp1 ≤ d) × (d ≤ day t.timestamp2)

abbrev pub issued : Sending → Ticket → List Ticket → List Ticket
issued sent t l = t ∷ l
issued _ t l = l

-- Observations, calls of `SendTicket` and receipts of dispatchers, in any order, with the tickets
-- that were put into a channel, the last first.
pub data Run (g : Gauge) : Server → List Ticket → Type 0 where
  start : Run g empty_server []
  send :
      {s : Server} {l : List Ticket} (t : Ticket)
      → Run g s l
      → Run g (send_ticket t s).0 (issued (send_ticket t s).1 t l)
  observe :
      {s : Server} {l : List Ticket} (p : Bytes) (road : ℕ) (cur : PositionLog)
      → Run g s l
      → Run g (insert_log g p road cur s) l
  take_one : {s : Server} {l : List Ticket} (road : ℕ) → Run g s l → Run g (receive road s) l

Covers-within : (t : Ticket) (d : ℕ) → Covers t d → within (day t.timestamp1) (rounds t) d ≡ true
Covers-within t d h = ground arith

-- The tickets that were sent are marked.
abbrev Marked : (Bytes → ℕ → Bool) → List Ticket → Type 0
Marked m l = All (λ t. (d : ℕ) → Covers t d → m t.plate d ≡ true) l

-- No day is covered by two tickets of one plate.
abbrev pub Disjoint : Ticket → Ticket → Type 0
Disjoint t u = t.plate ≡ u.plate → (d : ℕ) → Covers t d → ¬ Covers u d

abbrev pub NoneShared : List Ticket → Type 0
NoneShared [] = Unit
NoneShared (t ∷ l) = All (Disjoint t) l × NoneShared l

Marked-mark_days :
    (p : Bytes) (i n : ℕ) (m : Bytes → ℕ → Bool) (l : List Ticket)
    → Marked m l
    → Marked (mark_days p i n m) l
Marked-mark_days p i n m [] h = tt
Marked-mark_days p i n m (u ∷ l) (hu, hl) =
    (λ d c. ground (arith, mark_days_lem p i n m u.plate d, hu d c), Marked-mark_days p i n m l hl)

pub Marked_new :
    (t : Ticket) (m : Bytes → ℕ → Bool) (d : ℕ)
    → Covers t d
    → mark_days t.plate (day t.timestamp1) (rounds t) m t.plate d ≡ true
Marked_new t m d c = ground (
  arith,
  mark_days_lem t.plate (day t.timestamp1) (rounds t) m t.plate d,
  bytes_eq_refl t.plate,
  Covers-within t d c,
)

Marked-Disjoint :
    (t : Ticket) (m : Bytes → ℕ → Bool) (l : List Ticket)
    → any_day_sent (m t.plate) (day t.timestamp1) (rounds t) ≡ false
    → Marked m l
    → All (Disjoint t) l
Marked-Disjoint t m [] free h = tt
Marked-Disjoint t m (u ∷ l) free (hu, hl) = (
  λ same d c c'. cc (
    any_day_sent-within (m t.plate) (day t.timestamp1) (rounds t) d free (Covers-within t d c),
    hu d c',
    ap (λ (p : Bytes). m p d) same,
  ),
  Marked-Disjoint t m l free hl,
)

send_ticket-Marked :
    (t : Ticket) (s : Server) (l : List Ticket)
    → Marked s.ticket_sent l
    → NoneShared l
    → Marked (send_ticket t s).0.ticket_sent (issued (send_ticket t s).1 t l)
      × NoneShared (issued (send_ticket t s).1 t l)
unfolding send_ticket
send_ticket-Marked t s l marked none_shared =
    elim (Bool-cases (any_day_sent (s.ticket_sent t.plate) (day t.timestamp1) (rounds t))) [
      | inl found ↦ rw found (marked, none_shared)
      | inr free ↦ rw free (elim (Bool-cases (ltb (length (s.dispatcher_chan t.road)) chan_size)) [
        | inl room ↦ rw room (
          (Marked_new t s.ticket_sent, later),
          (Marked-Disjoint t s.ticket_sent l free marked, none_shared),
        )
        | inr full ↦ rw full (later, none_shared)
      ])
    ]
  where
    later : Marked (mark_days t.plate (day t.timestamp1) (rounds t) s.ticket_sent) l
    later = Marked-mark_days t.plate (day t.timestamp1) (rounds t) s.ticket_sent l marked

module _ (g : Gauge) where
  Run-Marked : {s : Server} {l : List Ticket} → Run g s l → Marked s.ticket_sent l × NoneShared l
  unfolding insert_log receive
  Run-Marked start = (tt, tt)
  Run-Marked (send {s} {l} t r) =
      let (marked, none_shared) = Run-Marked r in send_ticket-Marked t s l marked none_shared
  Run-Marked (observe p road cur r) = Run-Marked r
  Run-Marked (take_one road r) = Run-Marked r

  -- Whatever tickets are asked for and received, in any order: no two tickets that were put into the
  -- channels are for the same plate and a common day.
  pub Run-NoneShared : {s : Server} {l : List Ticket} → Run g s l → NoneShared l
  Run-NoneShared r = (Run-Marked r).1

covered-any_day_sent :
    (t : Ticket) (s : Server) (d : ℕ)
    → Covers t d
    → s.ticket_sent t.plate d ≡ true
    → any_day_sent (s.ticket_sent t.plate) (day t.timestamp1) (rounds t) ≡ true
covered-any_day_sent t s d c e =
    elim (Bool-cases (any_day_sent (s.ticket_sent t.plate) (day t.timestamp1) (rounds t))) [
      | inl yes' ↦ yes'
      | inr free ↦ cc (
          any_day_sent-within (s.ticket_sent t.plate) (day t.timestamp1) (rounds t) d free
            (Covers-within t d c))
    ]

-- A ticket is dropped exactly if a day that it covers was ticketed for its plate, and then nothing
-- changes.
pub suppressed_iff :
    (t : Ticket) (s : Server)
    → (((send_ticket t s).1 ≡ suppressed)
        ↔ ((d : ℕ) × Covers t d × (s.ticket_sent t.plate d ≡ true)))
      × (((send_ticket t s).1 ≢ suppressed) ⊎ ((send_ticket t s).0 ≡ s))
unfolding send_ticket
suppressed_iff t s = (
  (
    λ h.
        let (d, w, f) =
          any_day_sent_found (s.ticket_sent t.plate) (day t.timestamp1) (rounds t) (ground arith) in
        (d, ground arith, f),
    λ (d, c, f). ground (arith, covered-any_day_sent t s d c f),
  ),
  elim (Bool-cases (any_day_sent (s.ticket_sent t.plate) (day t.timestamp1) (rounds t))) [
    | inl found ↦ inr (rw found refl)
    | inr none_ ↦ inl (λ h. ground arith)
  ],
)
