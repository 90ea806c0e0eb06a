-- ===== src/Server/Promises.antt =====
-- What server/mod.rs relies on in the system calls below it.
use servoxide.Prelude.{ℕ, ◌≡◌, ◌≤◌, length}
use servoxide.Text.{Bytes}
use servoxide.Server.State.{System, Write}

-- `libc::write` takes at most the bytes it is given.
abbrev pub WritesWithin : System → Type 0
WritesWithin sys =
    (os : sys.Os) (fd : ℕ) (bs : Bytes) (n : ℕ)
    → (sys.write os fd bs).0 ≡ Write.wrote n
    → n ≤ length bs
