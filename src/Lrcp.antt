-- ===== src/Lrcp.antt =====
-- 7-line-reversal: the LRCP messages and sessions.
mod Tests
pub mod Message
pub mod Session
pub mod Sender
pub mod Delivery
pub mod Server
