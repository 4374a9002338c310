-- ===== src/Streaming.antt =====
-- Streams and sessions: include/openrtmp/streaming and src/streaming.
pub mod Types
pub mod Session
pub mod StreamRegistry
pub mod Frames
pub mod SubscriberBuffer
pub mod SubscriberBufferManager
pub mod GopBuffer
