-- ===== src/Http/Request.antt =====
-- lc/src/http/request.rs.
pub mod Types
pub mod Search
pub mod Chunked
pub mod Body
pub mod Percent
pub mod Head
mod Tests
