-- ===== src/Speed/Server/Fined.antt =====
-- 6-speed-daemon/main.go, `ProcessPlate`: an observation over the limit leaves a ticketed day.
use protohackers.Prelude.{
  ok-injective, ℕ, ◌≤◌, ◌≡◌, ◌⊎◌, refl, sym, ap, ◌∙◌, subst, inl, inr, true, ◌&&◌, List, [], ◌∷◌,
  ◌++◌, Bytes, bytes_eq, bytes_eq_refl, Option, none, some, ok, Bool-cases, arith, length, ltb,
  ◌==◌,
}
use protohackers.Speed.Message.{Ticket}
use protohackers.Speed.Session.{Session, get_camera_info}
use protohackers.Speed.Server.{
  Server, day, rounds, any_day_sent, mark_days, chan_size, send_ticket, Gauge, PositionLog,
  insert_log, ticket_of, send_all, Progress, waiting, finished, send_round, resume, process_plate,
}
use protohackers.Speed.Server.Days.{Covers, any_day_sent_found, mark_days_lem, Marked_new}

abbrev pub IsAmong : PositionLog → List PositionLog → Type 0
IsAmong x [] = ⊥
IsAmong x (y ∷ l) = (x ≡ y) ⊎ IsAmong x l

-- A day that the ticket covers is ticketed for the plate.
abbrev pub IsFined : Ticket → Server → Type 0
IsFined t s = (d : ℕ) × Covers t d × (s.ticket_sent t.plate d ≡ true)

send_ticket_keeps :
    (t : Ticket) (s : Server) (q : Bytes) (d : ℕ)
    → s.ticket_sent q d ≡ true
    → (send_ticket t s).0.ticket_sent q d ≡ true
unfolding send_ticket
send_ticket_keeps t s q d marked =
    let marked' : mark_days t.plate (day t.timestamp1) (rounds t) s.ticket_sent q d ≡ true =
      (ground
        (arith, mark_days_lem t.plate (day t.timestamp1) (rounds t) s.ticket_sent q d, marked)) in
    elim (Bool-cases (any_day_sent (s.ticket_sent t.plate) (day t.timestamp1) (rounds t))) [
      | inl found ↦ rw found marked
      | inr free ↦ rw free (elim (Bool-cases (ltb (length (s.dispatcher_chan t.road)) chan_size)) [
        | inl room ↦ rw room marked'
        | inr full ↦ rw full marked'
      ])
    ]

send_ticket-IsFined :
    (t : Ticket) (s : Server) → t.timestamp1 ≤ t.timestamp2 → IsFined t (send_ticket t s).0
unfolding send_ticket
send_ticket-IsFined t s order =
    let first : Covers t (day t.timestamp1) = (omega arith, omega (arith, order)) in
    let marked = Marked_new t s.ticket_sent (day t.timestamp1) first in
    elim (Bool-cases (any_day_sent (s.ticket_sent t.plate) (day t.timestamp1) (rounds t))) [
      | inl found ↦
          let (d, w, f) =
            any_day_sent_found (s.ticket_sent t.plate) (day t.timestamp1) (rounds t) found in
          rw found (d, ground (arith, w), f)
      | inr free ↦ rw free (elim (Bool-cases (ltb (length (s.dispatcher_chan t.road)) chan_size)) [
        | inl room ↦ rw room (day t.timestamp1, first, marked)
        | inr full ↦ rw full (day t.timestamp1, first, marked)
      ])
    ]

module _ (g : Gauge) (p : Bytes) (road limit : ℕ) (cur : PositionLog) where
  ticket_of_order :
      (position : PositionLog) (t : Ticket)
      → ticket_of g p road limit cur position ≡ some t
      → (t.timestamp1 ≤ t.timestamp2) × (t.plate ≡ p)
  unfolding ticket_of
  ticket_of_order position t e = ground arith

  send_round_keeps :
      (o : Option Ticket) (s : Server) (q : Bytes) (d : ℕ)
      → s.ticket_sent q d ≡ true
      → (send_round o s).0.ticket_sent q d ≡ true
  unfolding send_round
  send_round_keeps none s q d marked = marked
  send_round_keeps (some t) s q d marked = send_ticket_keeps t s q d marked

  resume-finished :
      (b : Progress) (s s' : Server) (later : Server × Progress)
      → resume b s later ≡ (s', finished)
      → later ≡ (s', finished)
  unfolding resume
  resume-finished waiting s s' later e = cc
  resume-finished finished s s' later e = e

  send_all_keeps :
      (ps : List PositionLog) (s s' : Server) (q : Bytes) (d : ℕ)
      → send_all g p road limit cur ps s ≡ (s', finished)
      → s.ticket_sent q d ≡ true
      → s'.ticket_sent q d ≡ true
  unfolding send_all
  send_all_keeps [] s s' q d e marked =
      let same : s ≡ s' = cc in subst (λ (r : Server). r.ticket_sent q d ≡ true) same marked
  send_all_keeps (x ∷ ps) s s' q d e marked =
      let step = send_round (ticket_of g p road limit cur x) s in
      send_all_keeps ps step.0 s' q d
        (resume-finished step.1 step.0 s' (send_all g p road limit cur ps step.0) e)
        (send_round_keeps (ticket_of g p road limit cur x) s q d marked)

  send_all-IsFined :
      (ps : List PositionLog) (position : PositionLog) (t : Ticket) (s s' : Server)
      → IsAmong position ps
      → ticket_of g p road limit cur position ≡ some t
      → send_all g p road limit cur ps s ≡ (s', finished)
      → IsFined t s'
  unfolding send_all send_round
  send_all-IsFined [] position t s s' among over e = absurd among
  send_all-IsFined (x ∷ ps) position t s s' (inl same) over e =
      let over' : ticket_of g p road limit cur x ≡ some t =
        (ap (ticket_of g p road limit cur) (sym same) ∙ over) in
      let step = send_round (ticket_of g p road limit cur x) s in
      let (d, covered, marked) =
        subst (λ (o : Option Ticket). IsFined t (send_round o s).0) (sym over')
          (send_ticket-IsFined t s (ticket_of_order x t over').0) in
      (
        d,
        covered,
        send_all_keeps ps step.0 s' t.plate d
            (resume-finished step.1 step.0 s' (send_all g p road limit cur ps step.0) e) marked,
      )
  send_all-IsFined (x ∷ ps) position t s s' (inr among) over e =
      let step = send_round (ticket_of g p road limit cur x) s in
      send_all-IsFined ps position t step.0 s' among over
        (resume-finished step.1 step.0 s' (send_all g p road limit cur ps step.0) e)

IsAmong-append :
    (x : PositionLog) (l : List PositionLog) (y : PositionLog)
    → IsAmong x l
    → IsAmong x (l ++ y ∷ [])
IsAmong-append x [] y among = absurd among
IsAmong-append x (z ∷ l) y (inl same) = inl same
IsAmong-append x (z ∷ l) y (inr among) = inr (IsAmong-append x l y among)

-- A camera observes a plate, and the loop over the positions comes to its end. For a position that was
-- logged before, and is over the limit together with the observation, a day that the ticket would
-- cover is then ticketed for the plate; the sort has only to keep the positions.
pub speeding-IsFined :
    (g : Gauge) (sess : Session) (p : Bytes) (road limit : ℕ) (cur position : PositionLog)
    (t : Ticket) (s s' : Server)
    → ((x : PositionLog) (l : List PositionLog) → IsAmong x l → IsAmong x (g.sort_stable l))
    → get_camera_info sess ≡ ok (road, cur.mile, limit)
    → IsAmong position (s.database_logs p road)
    → ticket_of g p road limit cur position ≡ some t
    → process_plate g sess p cur.timestamp s ≡ ok (s', finished)
    → (t.plate ≡ p) × IsFined t s'
unfolding process_plate insert_log
speeding-IsFined g sess p road limit cur position t s s' keeps camera logged over done =
    let logs = s.database_logs p road ++ cur ∷ [] in
    let own : (bytes_eq p p && (road == road)) ≡ true = (ground (arith, bytes_eq_refl p)) in
    let sorted : (insert_log g p road cur s).database_logs p road ≡ g.sort_stable logs =
      (rw own refl) in
    let among : IsAmong position ((insert_log g p road cur s).database_logs p road) =
      (subst (IsAmong position) (sym sorted)
        (keeps position logs (IsAmong-append position (s.database_logs p road) cur logged))) in
    let looped : send_all g p road limit cur ((insert_log g p road cur s).database_logs p road)
          (insert_log g p road cur s)
        ≡ (s', finished) =
      (ok-injective (rw camera at done)) in
    (
      (ticket_of_order g p road limit cur position t over).1,
      send_all-IsFined g p road limit cur ((insert_log g p road cur s).database_logs p road)
          position t (insert_log g p road cur s) s' among over looped,
    )
