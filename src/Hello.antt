-- ===== src/Hello.antt =====
-- crypto/tls_raw.rs: the TLS handshake messages that a tunnel begins with.
pub mod Parts
pub mod Browsers
pub mod Shuffle
