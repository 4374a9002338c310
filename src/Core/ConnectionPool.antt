-- ===== src/Core/ConnectionPool.antt =====
-- include/openrtmp/core/connection_pool.hpp and src/core/connection_pool.cpp. A call is one step: what
-- another thread does between the unlocking and the events is left out, and so is the events' time.
-- size_t and uint64_t are of 64 bits. The unique pointers to the entries are never empty.
pub mod State
pub mod Operations
pub mod Entries
pub mod Invariant
pub mod Limit
pub mod Handles
