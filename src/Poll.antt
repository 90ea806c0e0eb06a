-- ===== src/Poll.antt =====
-- lc/src/poll/mod.rs: what a file descriptor waits for, and what it is ready for.
pub mod Epoll
use servoxide.Prelude.{ℕ, Bool, true, false}

pub record Interest : Type 0 where
  pub readable : Bool
  pub writable : Bool

abbrev pub want_readable : Interest
want_readable = record { readable = true; writable = false }

abbrev pub want_writable : Interest
want_writable = record { readable = false; writable = true }

pub record Event : Type 0 where
  pub fd : ℕ
  pub readable : Bool
  pub writable : Bool
