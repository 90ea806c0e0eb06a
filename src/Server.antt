-- ===== src/Server.antt =====
-- lc/src/server/mod.rs: the choice of a server block, and the event loop.
pub mod Select
pub mod State
pub mod Bind
pub mod Ready
pub mod Promises
pub mod Toy
pub mod Dispatch
pub mod Io
pub mod Loop
mod Tests
