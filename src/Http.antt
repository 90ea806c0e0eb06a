-- ===== src/Http.antt =====
-- lc/src/http: request parsing, responses and routing.
pub mod Status
pub mod Mime
pub mod Request
pub mod Response
pub mod Router
