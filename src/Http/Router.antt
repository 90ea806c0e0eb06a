-- ===== src/Http/Router.antt =====
-- lc/src/http/router.rs.
mod Tests
pub mod Paths
pub mod Files
pub mod Match
pub mod Pages
pub mod Static
pub mod Multipart
pub mod Upload
pub mod CgiOutput
pub mod Dispatch
