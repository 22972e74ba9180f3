-- ===== src/Format.antt =====
-- crates/slink-format: the session/v0 format.
pub mod DateTime
pub mod Invariants
