-- ===== src/Session.antt =====
-- Authenticated sessions: crates/weregopher-runtime-protocol/src/session.rs.
pub mod Pending
pub mod Stream
pub mod Handshake
