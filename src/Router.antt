-- ===== src/Router.antt =====
-- direct.rs: the rules, their evaluation, and the routing decision.
pub mod Rules
pub mod Parse
pub mod CnIp
pub mod Merge
pub mod Search
pub mod Table
pub mod Decide
pub mod Upstream
pub mod Local
pub mod Order
pub mod Leaks
