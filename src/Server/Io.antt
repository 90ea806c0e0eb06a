-- ===== src/Server/Io.antt =====
-- `handle_read`, `handle_write`, `finish_response` and `accept_all` of server/mod.rs.
pub mod Reads
pub mod Writes
pub mod Accepts
pub mod Isolated
use servoxide.Prelude.{
  ℕ, zero, suc, ◌^◌, Bool, true, false, [], ◌++◌, Option, none, some, ltb, leb, ◌==◌, if◌then◌else◌,
  not, drop, is_empty, length, wrapping_add, Outcome, returns, panics, out_of_fuel, ◌>>=◌,
}
use servoxide.Text.{Bytes}
use servoxide.Dict.{lookup, insert, nat_eq}
use servoxide.Poll.{want_readable}
use servoxide.Server.State.{Client, new_client, Read, Write, System, State}
use servoxide.Server.Dispatch.{set_client, remove_client, try_dispatch}

-- `extend_from_slice`; a vector holds fewer than 2^63 bytes, or the call panics.
unfoldable pub extend : Bytes → Bytes → Outcome Bytes
extend buf bs = if ltb (length (buf ++ bs)) (2 ^ 63) then returns (buf ++ bs) else panics

-- The bytes of the request just answered go, and the connection waits for the next.
unfoldable pub reset : Client → Client
reset c = record c {
  inbuf = if leb c.pending_len (length c.inbuf) then drop c.pending_len c.inbuf else [];
  outbuf = [];
  written = 0;
  keep_alive = false;
  pending_len = 0;
}

module _ (sys : System) where
  abbrev with_os : State sys → sys.Os → State sys
  with_os st os' = record st { os = os' }

  received : State sys → ℕ → Bytes → Option Client → Outcome (State sys)
  unfolding extend set_client try_dispatch
  received st fd bs none = returns st
  received st fd bs (some c) = extend c.inbuf bs >>= λ inbuf'.
      (let (now, os') = sys.now st.os in
        try_dispatch sys
          (set_client sys (with_os st os') fd
            (λ c. record c { inbuf = inbuf'; last_activity = now }))
          fd)

  on_read : State sys → ℕ → Read → Outcome (State sys)
  unfolding received remove_client
  on_read st fd Read.eof = returns (remove_client sys st fd)
  on_read st fd Read.again = returns st
  on_read st fd Read.failed = returns (remove_client sys st fd)
  on_read st fd (Read.bytes bs) = received st fd bs (lookup fd st.clients)

  unfoldable pub handle_read : State sys → ℕ → Outcome (State sys)
  unfolding on_read
  handle_read st fd = let (r, os') = sys.read st.os fd in on_read (with_os st os') fd r

  after_modify : ℕ → State sys → Bool × sys.Os → Outcome (State sys)
  unfolding remove_client try_dispatch
  after_modify fd st (true, os') = try_dispatch sys (with_os st os') fd
  after_modify fd st (false, os') = returns (remove_client sys (with_os st os') fd)

  finish_client : State sys → ℕ → Option Client → Outcome (State sys)
  unfolding after_modify set_client reset remove_client
  finish_client st fd none = returns st
  finish_client st fd (some c) =
      if not c.keep_alive
      then returns (remove_client sys st fd)
      else after_modify fd (set_client sys st fd reset) (sys.poller_modify st.os fd want_readable)

  unfoldable pub finish_response : State sys → ℕ → Outcome (State sys)
  unfolding finish_client
  finish_response st fd = finish_client st fd (lookup fd st.clients)

  -- `n > 0` bytes have gone out.
  unfoldable pub advance : State sys → ℕ → Client → ℕ → Outcome (State sys)
  unfolding set_client finish_response
  advance st fd c n =
      let (now, os') = sys.now st.os in
      let written' = wrapping_add c.written n in
      let st' =
        set_client sys (with_os st os') fd
          (λ c. record c { written = written'; last_activity = now }) in
      if leb (length c.outbuf) written' then finish_response st' fd else returns st'

  on_write : State sys → ℕ → Client → Write → Outcome (State sys)
  unfolding advance remove_client
  on_write st fd c (Write.wrote n) = if n == 0 then returns st else advance st fd c n
  on_write st fd c Write.again = returns st
  on_write st fd c Write.failed = returns (remove_client sys st fd)

  -- The bytes `&c.outbuf[c.written..]`, if there are any, go to the system.
  write_client : State sys → ℕ → Client → Outcome (State sys)
  unfolding on_write remove_client
  write_client st fd c =
      let remaining = drop c.written c.outbuf in
      let (w, os') = sys.write st.os fd remaining in
      if not (leb c.written (length c.outbuf))
      then panics
      else if is_empty remaining
      then returns (remove_client sys st fd)
      else on_write (with_os st os') fd c w

  writable_client : State sys → ℕ → Option Client → Outcome (State sys)
  unfolding write_client
  writable_client st fd none = returns st
  writable_client st fd (some c) = write_client st fd c

  unfoldable pub handle_write : State sys → ℕ → Outcome (State sys)
  unfolding writable_client
  handle_write st fd = writable_client st fd (lookup fd st.clients)

  registered : State sys → ℕ → ℕ → Bool × sys.Os → State sys
  registered st fd addr_idx (false, os') = with_os st (sys.close os' fd)
  registered st fd addr_idx (true, os') =
      let (now, os2) = sys.now os' in
      record st { os = os2; clients = insert fd (new_client addr_idx now) st.clients }

  -- One connection: it is closed at once where it cannot be set up.
  unfoldable pub set_up : State sys → ℕ → ℕ → Bool × sys.Os → State sys
  unfolding registered
  set_up st fd addr_idx (false, os') = with_os st (sys.close os' fd)
  set_up st fd addr_idx (true, os') =
      registered st fd addr_idx (sys.poller_add os' fd want_readable)

  -- The loop, with a unit of fuel for each call of `accept`.
  unfoldable pub accept_all : ℕ → State sys → ℕ → ℕ → Outcome (State sys)
  unfolding set_up
  accept_all zero st listener addr_idx = out_of_fuel
  accept_all (suc fuel) st listener addr_idx =
      let (accepted, os') = sys.accept st.os listener in
      elim accepted [
        | none ↦ returns (with_os st os')
        | some fd ↦
            accept_all fuel (set_up (with_os st os') fd addr_idx (sys.set_nonblocking os' fd))
              listener addr_idx
      ]
