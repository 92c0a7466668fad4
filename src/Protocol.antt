-- ===== src/Protocol.antt =====
-- The protocol's contracts: crates/weregopher-domain/src/protocol.rs and runtime_protocol.rs.
pub mod Kind
pub mod Header
pub mod Limits
pub mod Version
pub mod Hello
