-- ===== src/Speed/Server/Requests.antt =====
-- 6-speed-daemon/main.go and session.go: whatever the clients ask for, the server does nothing but
-- log observations and call `SendTicket`.
use protohackers.Prelude.{ℕ, List}
use protohackers.Speed.Message.{Ticket, Message}
use protohackers.Speed.Session.{Session}
use protohackers.Speed.Server.{Server, empty_server, receive, Gauge, handle_request}
use protohackers.Speed.Server.Days.{Run}

module _ (g : Gauge) where
  -- The server is reached by a run.
  abbrev pub Reached : Server → Type 0
  Reached s = (l : List Ticket) × Run g s l

-- Requests of clients, each in any state of its session, and receipts of dispatchers, in any order.
pub data Served (g : Gauge) : Server → Type 0 where
  fresh : Served g empty_server
  request :
      {s : Server} (m : Message) (sess : Session)
      → Served g s
      → Served g (handle_request g m sess s).1
  receipt : {s : Server} (road : ℕ) → Served g s → Served g (receive road s)
