-- ===== src/Speed/Server.antt =====
-- 6-speed-daemon/main.go: the plate observations, the tickets and the days that were ticketed.
-- A map is a function, with the zero value where the key is missing; so a nested map that was not
-- made yet is the constant function. The lines that compute in float64 are the parameter `Gauge`.
pub mod Days
pub mod Fined
pub mod Requests
pub mod Roles
use protohackers.Prelude.{
  ℕ, zero, suc, ◌+◌, ◌-◌, ◌/◌, Bool, true, false, ◌&&◌, ◌||◌, List, [], ◌∷◌, ◌++◌, Option, none,
  some, Result, ok, err, ◌>>=◌, Bytes, bytes_eq, length, ltb, leb, ◌==◌, if◌then◌else◌,
}
use protohackers.Speed.Message.{
  Error, Message, Ticket, not_a_valid_request, error, plate, want_heartbeat, i_am_camera,
  i_am_dispatcher,
}
use protohackers.Speed.Session.{
  Session, error_text, get_camera_info, handle_client_registration, handle_heart_beat,
}

pub record PositionLog : Type 0 where
  pub mile : ℕ
  pub timestamp : ℕ

pub record Server : Type 0 where
  pub database_logs : Bytes → ℕ → List PositionLog
  pub dispatcher_chan : ℕ → List Ticket
  pub ticket_sent : Bytes → ℕ → Bool

abbrev pub empty_server : Server
empty_server = record {
  database_logs = λ p r. [];
  dispatcher_chan = λ r. [];
  ticket_sent = λ p d. false;
}

abbrev pub chan_size : ℕ
chan_size = 1024

-- What a call of `SendTicket` does: it sends, it finds a ticketed day, or it waits at a full channel
-- (for ever, as far as the model goes). Go returns nil in the first two cases.
pub data Sending : Type 0 where
  sent suppressed blocked : Sending

abbrev pub day : ℕ → ℕ
day timestamp = timestamp / 86400

-- `for i := day1; i <= day2; i++` makes `day2 + 1 - day1` rounds.
abbrev pub rounds : Ticket → ℕ
rounds t = day t.timestamp2 + 1 - day t.timestamp1

unfoldable pub any_day_sent : (ℕ → Bool) → ℕ → ℕ → Bool
any_day_sent found i zero = false
any_day_sent found i (suc n) = found i || any_day_sent found (i + 1) n

unfoldable pub mark_days : Bytes → ℕ → ℕ → (Bytes → ℕ → Bool) → Bytes → ℕ → Bool
mark_days p i zero m = m
mark_days p i (suc n) m =
    mark_days p (i + 1) n (λ q d. if bytes_eq q p && (d == i) then true else m q d)

-- `s.getDispatcherChan(road) <- ticket`
unfoldable pub put_chan : ℕ → Ticket → (ℕ → List Ticket) → ℕ → List Ticket
put_chan road t c r = if r == road then c r ++ t ∷ [] else c r

unfoldable pub send_ticket : Ticket → Server → Server × Sending
send_ticket t s =
    if any_day_sent (s.ticket_sent t.plate) (day t.timestamp1) (rounds t)
    then (s, suppressed)
    else let s' = record s {
      ticket_sent = mark_days t.plate (day t.timestamp1) (rounds t) s.ticket_sent;
    } in
      if ltb (length (s.dispatcher_chan t.road)) chan_size
      then (record s' { dispatcher_chan = put_chan t.road t s.dispatcher_chan }, sent)
      else (s', blocked)

-- A dispatcher's routine takes the oldest ticket of a road.
abbrev pub behind : List Ticket → List Ticket
behind [] = []
behind (t ∷ ts) = ts

unfoldable pub receive : ℕ → Server → Server
receive road s = record s {
  dispatcher_chan = λ r. if r == road then behind (s.dispatcher_chan r) else s.dispatcher_chan r;
}

-- The float64 lines of `ProcessPlate` for two positions in the order of time, and the sort of the
-- positions by a comparison that is no strict weak order.
pub record Gauge : Type 0 where
  pub is_over : PositionLog → PositionLog → ℕ → Bool  -- not (under the limit, or at it by less than .5)
  pub centi_speed : PositionLog → PositionLog → ℕ  -- uint16(speed * 100)
  pub sort_stable : List PositionLog → List PositionLog

-- The result of a loop that may stop at a full channel.
pub data Progress : Type 0 where
  finished waiting : Progress

abbrev progress_of : Sending → Progress
progress_of blocked = waiting
progress_of _ = finished

unfoldable pub send_round : Option Ticket → Server → Server × Progress
send_round none s = (s, finished)
send_round (some t) s = let (s', outcome) = send_ticket t s in (s', progress_of outcome)

unfoldable pub resume : Progress → Server → Server × Progress → Server × Progress
resume waiting s later = (s, waiting)
resume finished s later = later

module _ (g : Gauge) where
  abbrev pub ticket_for : Bytes → ℕ → PositionLog → PositionLog → Ticket
  ticket_for p road pos1 pos2 = record {
    plate = p;
    road = road;
    mile1 = pos1.mile;
    timestamp1 = pos1.timestamp;
    mile2 = pos2.mile;
    timestamp2 = pos2.timestamp;
    speed = g.centi_speed pos1 pos2;
  }

  -- One round of the loop over the logged positions, up to `SendTicket`.
  unfoldable pub ticket_of : Bytes → ℕ → ℕ → PositionLog → PositionLog → Option Ticket
  ticket_of p road limit cur position =
      if (position.timestamp == cur.timestamp) && (position.mile == cur.mile)
      then none
      else let pos1 = if ltb position.timestamp cur.timestamp then position else cur in
        let pos2 = if ltb position.timestamp cur.timestamp then cur else position in
        if g.is_over pos1 pos2 limit then some (ticket_for p road pos1 pos2) else none

  unfoldable pub send_all :
      Bytes → ℕ → ℕ → PositionLog → List PositionLog → Server → Server × Progress
  send_all p road limit cur [] s = (s, finished)
  send_all p road limit cur (position ∷ rest) s =
      let (s', progress) = send_round (ticket_of p road limit cur position) s in
      let later = send_all p road limit cur rest s' in resume progress s' later

  unfoldable pub insert_log : Bytes → ℕ → PositionLog → Server → Server
  insert_log p road cur s = record s {
    database_logs = λ q r.
        if bytes_eq q p && (r == road)
        then g.sort_stable (s.database_logs q r ++ cur ∷ [])
        else s.database_logs q r;
  }

  unfoldable pub process_plate : Session → Bytes → ℕ → Server → Result Error (Server × Progress)
  process_plate sess p timestamp s = do
    (road, mile, limit) ← get_camera_info sess
    let cur : PositionLog = record { mile = mile; timestamp = timestamp }
    let s' = insert_log p road cur s
    ok (send_all p road limit cur (s'.database_logs p road) s')

  -- A registration or an observation that fails is answered with an `Error` message.
  abbrev answer_registration :
      Session → Server → Result Error Session → Session × Server × Option Message × Progress
  answer_registration sess s (ok sess') = (sess', s, none, finished)
  answer_registration sess s (err e) = (sess, s, some (error (error_text e)), finished)

  abbrev answer_plate :
      Session
      → Server
      → Result Error (Server × Progress)
      → Session × Server × Option Message × Progress
  answer_plate sess s (ok (s', p)) = (sess, s', none, p)
  answer_plate sess s (err e) = (sess, s, some (error (error_text e)), finished)

  -- `HandleRequest`: the answer, if any, goes back to the client, and the session goes on.
  unfoldable pub handle_request :
      Message → Session → Server → Session × Server × Option Message × Progress
  handle_request (plate p timestamp) sess s = answer_plate sess s (process_plate sess p timestamp s)
  handle_request (want_heartbeat interval) sess s =
      (handle_heart_beat interval sess, s, none, finished)
  handle_request (i_am_camera r m l) sess s =
      answer_registration sess s (handle_client_registration (i_am_camera r m l) sess)
  handle_request (i_am_dispatcher rs) sess s =
      answer_registration sess s (handle_client_registration (i_am_dispatcher rs) sess)
  handle_request m sess s = (sess, s, some (error (error_text not_a_valid_request)), finished)
