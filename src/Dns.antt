-- ===== src/Dns.antt =====
-- tun/dns.rs: the cache of direct answers, and the parts of its wire format.
pub mod Cache
pub mod Wire
pub mod RoundTrip
pub mod Answers
