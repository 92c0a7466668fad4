-- ===== src/Process.antt =====
-- The process session: crates/weregopher-adapter-openai/src/app_server_process.rs.
pub mod Limits
pub mod State
pub mod Initialization
pub mod Client
pub mod Worker
pub mod Reader
pub mod Dispatch
pub mod Poll
pub mod Phase
pub mod Refinement
pub mod Session
pub mod Order
pub mod Ending
pub mod History
pub mod Over
pub mod Bounds
