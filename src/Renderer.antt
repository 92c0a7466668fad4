-- ===== src/Renderer.antt =====
-- The backend-neutral renderer: crates/weregopher-renderer/src.
pub mod Lifecycle
