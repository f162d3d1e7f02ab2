-- ===== src/Isl.antt =====
-- 8-insecure-sockets-layer: the ciphers, the connections and the toys.
mod Tests
pub mod Cipher
pub mod Slices
pub mod Toys
pub mod Server
