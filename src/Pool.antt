-- ===== src/Pool.antt =====
-- proxy/pool.rs: the client's side of the handshake, and the statistics of a pool.
pub mod Flight
pub mod Answer
pub mod Stats
pub mod Pauses
