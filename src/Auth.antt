-- ===== src/Auth.antt =====
-- crypto/hello_auth.rs: the session tokens of clients, and the server's defence against replays.
pub mod Token
pub mod Replay
pub mod Once
pub mod Runs
pub mod Opening
