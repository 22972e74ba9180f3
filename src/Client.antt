-- ===== src/Client.antt =====
-- crates/slink-client: what this machine keeps of an account, and what it accepts of the service.
pub mod Errors
pub mod Device
pub mod Named
pub mod Texts
pub mod Maps
pub mod Actions
pub mod Origin
pub mod Changes
pub mod Vault
pub mod Receipt
