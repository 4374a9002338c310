-- ===== src/Core.antt =====
-- Services that the server's parts share: include/openrtmp/core and src/core.
pub mod Buffer
pub mod PublisherLimit
pub mod ConnectionPool
