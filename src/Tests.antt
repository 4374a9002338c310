-- ===== src/Tests.antt =====
-- Runs of the modelled code at concrete inputs.
pub mod Wire
pub mod Split
pub mod Messages
pub mod Greeting
pub mod Sessions
pub mod Streams
pub mod Limits
pub mod Amf
pub mod Buffers
pub mod Pool
pub mod Bytes
pub mod Timeouts
