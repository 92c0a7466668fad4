-- ===== src/Proxy.antt =====
-- The app-server proxy: crates/weregopher-adapter-openai/src/app_server_proxy.rs.
pub mod Text
pub mod Message
pub mod Limits
pub mod Json
pub mod Queue
pub mod State
pub mod Correlation
pub mod Admit
pub mod Prepare
pub mod Release
pub mod Expire
pub mod Run
pub mod Order
pub mod Waiting
pub mod Side
pub mod Invariant
pub mod Retirement
pub mod Answer
pub mod Ended
