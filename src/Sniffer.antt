-- ===== src/Sniffer.antt =====
-- tun/sniffer.rs: the name of the server in the first packet of a connection.
pub mod Tls
pub mod ServerName
pub mod Sizes
pub mod Profiles
