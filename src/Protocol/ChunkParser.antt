-- ===== src/Protocol/ChunkParser.antt =====
-- include/openrtmp/protocol/chunk_parser.hpp and src/protocol/chunk_parser.cpp: the state, the
-- headers, the loop, and their theorems.
pub mod State
pub mod Header
pub mod Rounds
pub mod Total
pub mod Bounds
