-- ===== src/Protocol.antt =====
-- The wire protocol: include/openrtmp/protocol and src/protocol.
pub mod ChunkParser
pub mod MessageAssembler
pub mod HandshakeHandler
pub mod HandshakeTimeout
pub mod AmfCodec
