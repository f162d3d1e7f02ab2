-- ===== src/Speed.antt =====
-- 6-speed-daemon: the wire messages and the ticket server.
mod Tests
pub mod Message
pub mod Session
pub mod Server
