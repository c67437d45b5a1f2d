-- ===== src/Net.antt =====
-- Addresses and domain names as the routing rules see them (direct.rs).
pub mod Address
pub mod Cidr
pub mod Private
pub mod Names
pub mod Domains
pub mod Routers
