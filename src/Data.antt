-- ===== src/Data.antt =====
-- The representations that the components share: maps, text and machine words.
pub mod Maps
pub mod Texts
pub mod Words
pub mod Masks
pub mod Numerals
pub mod Lossy
