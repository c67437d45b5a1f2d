-- ===== src/Idle.antt =====
-- tun/adaptive_idle.rs, attribution.rs: idle timeouts by kind of traffic, and the profiles that tune them.
pub mod Names
pub mod Kinds
pub mod Profiles
pub mod Classify
pub mod Learn
pub mod Tuned
pub mod Store
pub mod Reach
