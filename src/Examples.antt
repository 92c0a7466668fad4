-- ===== src/Examples.antt =====
-- Concrete runs: tests of the components, and the theorems at concrete inputs.
mod Wire
mod Streams
mod Calls
mod Controls
mod Handshakes
mod Renderers
mod Proxies
mod Lines
mod Owners
mod Sessions
mod Payloads
