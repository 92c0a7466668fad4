-- ===== src/Controls.antt =====
-- Observation and interception: crates/weregopher-adapter-openai/src/app_server_controls.rs.
pub mod Method
pub mod Journal
pub mod Policy
