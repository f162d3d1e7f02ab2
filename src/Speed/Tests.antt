-- ===== src/Speed/Tests.antt =====
-- 6-speed-daemon: the results at concrete messages and runs of the server.
use protohackers.Prelude.{
  inl, some, ◌≡◌, ◌≢◌, refl, List, [], ◌∷◌, ◌++◌, none, ok, Bytes, codes, leb, arith,
}
use protohackers.Speed.Message.{
  Message, Ticket, plate, i_am_camera, IsWireable, marshal, unmarshal_message, unmarshaler,
  read_full, read_u8, read_u32, read_str, unmarshal_plate,
}
use protohackers.Speed.Message.RoundTrip.{unmarshal-marshal}
use protohackers.Speed.Message.Sound.{unmarshal_sound}
use protohackers.Speed.Session.{
  get_camera_info, Session, camera, registration, handle_client_registration, new_session,
}
use protohackers.Speed.Server.{
  PositionLog, insert_log, process_plate, ticket_of, send_all, send_round, resume, any_day_sent,
  finished, Server, empty_server, Gauge, send_ticket, handle_request,
}
use protohackers.Speed.Server.Days.{issued}
use protohackers.Speed.Server.Fined.{IsFined, speeding-IsFined}

abbrev observation : Message
observation = plate (codes "UN1X") 1000

abbrev observation_bytes : Bytes
observation_bytes = 0x20 ∷ 4 ∷ codes "UN1X" ++ 0 ∷ 0 ∷ 3 ∷ 232 ∷ []

unmarshal-marshal_example :
    ((marshal observation).1 ≡ none)
    × (unmarshal_message ((marshal observation).0 ++ 0x41 ∷ []) ≡ ok (observation, 0x41 ∷ []))
unmarshal-marshal_example = unmarshal-marshal observation (0x41 ∷ []) (omega arith, omega arith)

observation-reads : unmarshal_message (observation_bytes ++ 0x41 ∷ []) ≡ ok (observation, 0x41 ∷ [])
unfolding unmarshal_message unmarshaler read_full read_u8 read_u32 read_str unmarshal_plate
observation-reads = refl

unmarshal_sound_example :
    IsWireable observation
    × ((marshal observation).1 ≡ none)
    × (observation_bytes ++ 0x41 ∷ [] ≡ (marshal observation).0 ++ 0x41 ∷ [])
unmarshal_sound_example =
    unmarshal_sound (observation_bytes ++ 0x41 ∷ []) observation (0x41 ∷ []) (ground arith)
      (λ e. cc) observation-reads

abbrev example_ticket : Ticket
example_ticket = record {
  plate = codes "UN1X";
  road = 123;
  mile1 = 8;
  timestamp1 = 0;
  mile2 = 9;
  timestamp2 = 45;
  speed = 8000;
}

abbrev example_gauge : Gauge
example_gauge = record {
  is_over = λ p q limit. leb 10 limit;
  centi_speed = λ p q. 8000;
  sort_stable = λ l. l;
}

abbrev after_one : Server
after_one = (send_ticket example_ticket empty_server).0

abbrev issued_one : List Ticket
issued_one = issued (send_ticket example_ticket empty_server).1 example_ticket []

abbrev camera_session : Session
camera_session = (handle_request example_gauge (i_am_camera 123 8 60) new_session empty_server).0

abbrev observed : Server
observed = (handle_request example_gauge observation camera_session empty_server).1

abbrev camera_only : Session
camera_only = record new_session { sess_type = camera }

is_refused : (handle_request example_gauge (i_am_camera 7 1 9) camera_only observed).2 ≢ none
unfolding handle_request handle_client_registration registration
is_refused e = cc e

-- A camera at mile 9 observes a car that was at mile 8 before.
abbrev ninth_mile : Session
ninth_mile = record new_session {
  sess_type = camera;
  camera_road = 123;
  camera_mile = 9;
  camera_limit = 60;
}

abbrev at_eight : PositionLog
at_eight = record { mile = 8; timestamp = 0 }

abbrev at_nine : PositionLog
at_nine = record { mile = 9; timestamp = 45 }

abbrev one_logged : Server
one_logged = record empty_server { database_logs = λ p r. at_eight ∷ [] }

abbrev both_logged : Server
both_logged = insert_log example_gauge example_ticket.plate 123 at_nine one_logged

abbrev fined : Server
fined = (send_ticket example_ticket both_logged).0

fined_run :
    process_plate example_gauge ninth_mile example_ticket.plate 45 one_logged ≡ ok (fined, finished)
unfolding process_plate get_camera_info insert_log send_all ticket_of send_round resume send_ticket
    any_day_sent
fined_run = refl

ninth_mile_is_camera : get_camera_info ninth_mile ≡ ok (123, 9, 60)
unfolding get_camera_info
ninth_mile_is_camera = refl

is_over_limit : ticket_of example_gauge (codes "UN1X") 123 60 at_nine at_eight ≡ some example_ticket
unfolding ticket_of
is_over_limit = refl

speeding-IsFined_example : (example_ticket.plate ≡ codes "UN1X") × IsFined example_ticket fined
speeding-IsFined_example =
    speeding-IsFined example_gauge ninth_mile (codes "UN1X") 123 60 at_nine at_eight example_ticket
      one_logged fined (λ x l among. among) ninth_mile_is_camera (inl refl) is_over_limit fined_run
