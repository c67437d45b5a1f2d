-- ===== src/Crypto.antt =====
-- crypto: the ciphers of a tunnel, and the records in which data goes through it.
pub mod Cipher
pub mod Writer
pub mod Reader
pub mod Padding
pub mod Plans
pub mod Loop
pub mod Stream
pub mod Rounds
pub mod Tunnel
pub mod Counting
pub mod Nonces
