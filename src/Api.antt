-- ===== src/Api.antt =====
-- The server: src/api.
pub mod ChunkWriter
