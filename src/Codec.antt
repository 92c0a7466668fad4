-- ===== src/Codec.antt =====
-- The runtime protocol's codec: crates/weregopher-runtime-protocol/src/codec.rs.
pub mod Cursor
pub mod Inspect
pub mod Frames
