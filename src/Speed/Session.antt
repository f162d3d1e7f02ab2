-- ===== src/Speed/Session.antt =====
-- 6-speed-daemon/session.go: the roles of a client. The Go routines that a handler starts are kept
-- as what they were started with.
use protohackers.Prelude.{
  ℕ, ◌+◌, ◌%◌, Bool, List, [], ◌∷◌, Result, ok, err, Bytes, codes, ltb, ◌==◌, if◌then◌else◌,
}
use protohackers.Speed.Message.{
  Error, Message, i_am_camera, i_am_dispatcher, not_a_camera, not_a_dispatcher, already_camera,
  already_dispatcher, eof, unexpected_eof, invalid_string_length, invalid_array_length,
  not_a_valid_request,
}

pub data SessionType : Type 0 where
  unknown camera dispatcher : SessionType

pub record Session : Type 0 where
  pub sess_type : SessionType
  pub camera_road : ℕ
  pub camera_mile : ℕ
  pub camera_limit : ℕ
  pub dispatcher_roads : List ℕ
  pub heart_beat_id : ℕ  -- uint8
  pub listeners : List ℕ  -- the roads that a routine forwards tickets of
  pub heart_beats : List (ℕ × ℕ)  -- the routines that beat: their `hbID` and interval

abbrev pub new_session : Session
new_session = record {
  sess_type = unknown;
  camera_road = 0;
  camera_mile = 0;
  camera_limit = 0;
  dispatcher_roads = [];
  heart_beat_id = 0;
  listeners = [];
  heart_beats = [];
}

dispatcher_info : SessionType → Session → Result Error (List ℕ)
dispatcher_info dispatcher s = ok s.dispatcher_roads
dispatcher_info _ s = err not_a_dispatcher

unfoldable pub get_dispatcher_info : Session → Result Error (List ℕ)
unfolding dispatcher_info
get_dispatcher_info s = dispatcher_info s.sess_type s

camera_info : SessionType → Session → Result Error (ℕ × ℕ × ℕ)
camera_info camera s = ok (s.camera_road, s.camera_mile, s.camera_limit)
camera_info _ s = err not_a_camera

unfoldable pub get_camera_info : Session → Result Error (ℕ × ℕ × ℕ)
unfolding camera_info
get_camera_info s = camera_info s.sess_type s

register : Message → Session → Session
register (i_am_camera road mile limit) s = record s {
  sess_type = camera;
  camera_road = road;
  camera_mile = mile;
  camera_limit = limit;
}
register (i_am_dispatcher roads) s = record s {
  sess_type = dispatcher;
  dispatcher_roads = roads;
  listeners = roads;
}
register _ s = s

unfoldable pub registration : SessionType → Message → Session → Result Error Session
unfolding register
registration unknown m s = ok (register m s)
registration camera m s = err already_camera
registration dispatcher m s = err already_dispatcher

unfoldable pub handle_client_registration : Message → Session → Result Error Session
unfolding registration
handle_client_registration m s = registration s.sess_type m s

-- The counter is a uint8. The interval 0 starts no beat.
unfoldable pub handle_heart_beat : ℕ → Session → Session
handle_heart_beat interval s =
    let id = (s.heart_beat_id + 1) % 256 in
    record s {
      heart_beat_id = id;
      heart_beats = if ltb 0 interval then (id, interval) ∷ s.heart_beats else s.heart_beats;
    }

-- Whether the routine with this `hbID` goes on at its next beat.
unfoldable pub is_beating : ℕ → Session → Bool
is_beating id s = id == s.heart_beat_id

-- `err.Error()`
abbrev pub error_text : Error → Bytes
error_text eof = codes "EOF"
error_text unexpected_eof = codes "unexpected EOF"
error_text invalid_string_length = codes "invalid string length"
error_text invalid_array_length = codes "invalid array length"
error_text not_a_camera = codes "not a dispatcher client"
error_text not_a_dispatcher = codes "not a dispatcher client"
error_text already_camera = codes "session already identified as camera"
error_text already_dispatcher = codes "session already identified as dispatcher"
error_text not_a_valid_request = codes "not a valid request"
