-- ===== src/NodeUri.antt =====
-- node_uri.rs: the address of a node, `mirage://password@host:port?sni=name`.
pub mod Parse
pub mod Escapes
pub mod RoundTrip
