-- ===== src/Protocol.antt =====
-- crates/slink-protocol: signed statements, the device history, and what hangs off it.
pub mod Errors
pub mod Json
pub mod Crypto
pub mod Encoding
pub mod Laws
pub mod Signed
pub mod Payload
pub mod Decimal
pub mod Wrap
pub mod History
pub mod Envelope
pub mod Record
pub mod Request
pub mod Recovery
pub mod Named
pub mod Names
pub mod Write
