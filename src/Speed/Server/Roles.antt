-- ===== src/Speed/Server/Roles.antt =====
-- 6-speed-daemon/session.go: the role of a client, and requests that are refused.
use protohackers.Prelude.{◌≡◌, ◌≢◌, refl, none, Result, ok, err}
use protohackers.Speed.Message.{
  Error, Message, already_camera, already_dispatcher, plate, want_heartbeat, i_am_camera,
  i_am_dispatcher,
}
use protohackers.Speed.Session.{
  Session, SessionType, unknown, camera, dispatcher, handle_client_registration, handle_heart_beat,
  registration,
}
use protohackers.Speed.Server.{
  Server, Gauge, Progress, process_plate, answer_plate, answer_registration, handle_request,
}

-- The role of a client with what belongs to it.
abbrev pub SameRole : Session → Session → Type 0
SameRole a b =
    (b.sess_type ≡ a.sess_type)
    × (b.camera_road ≡ a.camera_road)
    × (b.camera_mile ≡ a.camera_mile)
    × (b.camera_limit ≡ a.camera_limit)
    × (b.dispatcher_roads ≡ a.dispatcher_roads)
    × (b.listeners ≡ a.listeners)

refused_registration :
    (m : Message) (s : Session) (t : SessionType)
    → t ≢ unknown
    → (e : Error) × (registration t m s ≡ err e)
unfolding registration
refused_registration m s unknown ne = absurd (ne refl)
refused_registration m s camera ne = (already_camera, refl)
refused_registration m s dispatcher ne = (already_dispatcher, refl)

module _ (g : Gauge) (sess : Session) (s : Server) where
  registration-SameRole :
      (m : Message)
      → sess.sess_type ≢ unknown
      → SameRole sess (answer_registration g sess s (handle_client_registration m sess)).0
  unfolding handle_client_registration
  registration-SameRole m ne =
      let (e, refused) = refused_registration m sess sess.sess_type ne in
      rw refused (refl, refl, refl, refl, refl, refl)

  plate-SameRole :
      (o : Result Error (Server × Progress)) → SameRole sess (answer_plate g sess s o).0
  plate-SameRole (ok x) = (refl, refl, refl, refl, refl, refl)
  plate-SameRole (err e) = (refl, refl, refl, refl, refl, refl)

  refused_plate :
      (o : Result Error (Server × Progress))
      → (answer_plate g sess s o).2 ≢ none
      → ((answer_plate g sess s o).0 ≡ sess) × ((answer_plate g sess s o).1 ≡ s)
  refused_plate (ok x) ne = absurd (ne refl)
  refused_plate (err e) ne = (refl, refl)

  refused_role :
      (o : Result Error Session)
      → (answer_registration g sess s o).2 ≢ none
      → ((answer_registration g sess s o).0 ≡ sess) × ((answer_registration g sess s o).1 ≡ s)
  refused_role (ok x) ne = absurd (ne refl)
  refused_role (err e) ne = (refl, refl)

-- A request that is answered with an error has changed neither the session nor the server.
pub handle_request_refused :
    (g : Gauge) (m : Message) (sess : Session) (s : Server)
    → (handle_request g m sess s).2 ≢ none
    → ((handle_request g m sess s).0 ≡ sess) × ((handle_request g m sess s).1 ≡ s)
unfolding handle_request
handle_request_refused g (plate p t) sess s ne =
    refused_plate g sess s (process_plate g sess p t s) ne
handle_request_refused g (want_heartbeat i) sess s ne = absurd (ne refl)
handle_request_refused g (i_am_camera r m l) sess s ne =
    refused_role g sess s (handle_client_registration (i_am_camera r m l) sess) ne
handle_request_refused g (i_am_dispatcher rs) sess s ne =
    refused_role g sess s (handle_client_registration (i_am_dispatcher rs) sess) ne
handle_request_refused g _ sess s ne = (refl, refl)

-- A client that has a role keeps it, with its place or roads, whatever it requests.
pub handle_request-SameRole :
    (g : Gauge) (m : Message) (sess : Session) (s : Server)
    → sess.sess_type ≢ unknown
    → SameRole sess (handle_request g m sess s).0
unfolding handle_request handle_heart_beat
handle_request-SameRole g (plate p t) sess s ne =
    plate-SameRole g sess s (process_plate g sess p t s)
handle_request-SameRole g (i_am_camera r m l) sess s ne =
    registration-SameRole g sess s (i_am_camera r m l) ne
handle_request-SameRole g (i_am_dispatcher rs) sess s ne =
    registration-SameRole g sess s (i_am_dispatcher rs) ne
handle_request-SameRole g _ sess s ne = (refl, refl, refl, refl, refl, refl)
