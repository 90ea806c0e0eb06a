-- ===== src/Config.antt =====
-- lc/src/config: the configuration that the other parts read.
pub mod Types
pub mod Bindings
pub mod Size
pub mod Tokens
pub mod Ipv4
pub mod Parser
mod Tests
