-- ===== src/Handshake.antt =====
-- crypto/handshake_cache.rs: the handshake messages that a server plays back.
pub mod Templates
pub mod Complete
pub mod Answers
pub mod Cache
