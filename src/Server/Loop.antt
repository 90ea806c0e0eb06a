-- ===== src/Server/Loop.antt =====
-- `sweep_timeouts` and `run` of server/mod.rs.
pub mod Reasons
pub mod Ready
pub mod Answers
pub mod Sweep
pub mod Isolated
pub mod Stalled
mod Tests
use servoxide.Prelude.{
  ℕ, zero, suc, ◌-◌, Bool, true, false, List, [], ◌∷◌, Option, none, some, leb, if◌then◌else◌, not,
  is_empty, Outcome, returns, ◌>>=◌,
}
use servoxide.Dict.{Dict, lookup, nat_eq}
use servoxide.Poll.{Event}
use servoxide.Server.State.{Client, idle_timeout, request_timeout, System, State}
use servoxide.Server.Dispatch.{remove_client, respond_error}
use servoxide.Server.Io.{accept_all, handle_read, handle_write}

-- A connection with a response under way is left alone; `duration_since` is zero for a later point
-- of time.
pub data Verdict : Type 0 where
  leave close timeout : Verdict

unfoldable pub verdict : ℕ → Client → Verdict
verdict now c =
    let idle = now - c.last_activity in
    if not (is_empty c.outbuf)
    then Verdict.leave
    else if not (is_empty c.inbuf)
    then (if leb request_timeout idle then Verdict.timeout else Verdict.leave)
    else if leb idle_timeout idle
    then Verdict.close
    else Verdict.leave

abbrev pub is_close : Verdict → Bool
is_close Verdict.close = true
is_close _ = false

abbrev pub is_timeout : Verdict → Bool
is_timeout Verdict.timeout = true
is_timeout _ = false

-- The descriptors of the connections that the test picks.
unfoldable pub pick : (Client → Bool) → Dict ℕ Client → List ℕ
pick p [] = []
pick p ((fd, c) ∷ m) = let rest = pick p m in if p c then fd ∷ rest else rest

-- The connections that are closed, and those that are timed out.
abbrev pub to_close : ℕ → Dict ℕ Client → List ℕ
to_close now clients = pick (λ c. is_close (verdict now c)) clients

abbrev pub to_time_out : ℕ → Dict ℕ Client → List ℕ
to_time_out now clients = pick (λ c. is_timeout (verdict now c)) clients

module _ (sys : System) where
  unfoldable pub close_each : State sys → List ℕ → State sys
  close_each st [] = st
  close_each st (fd ∷ fds) = close_each (remove_client sys st fd) fds

  unfoldable pub timeout_each : State sys → List ℕ → State sys
  timeout_each st [] = st
  timeout_each st (fd ∷ fds) = timeout_each (respond_error sys st fd 408 none) fds

  unfoldable pub sweep_timeouts : State sys → ℕ → State sys
  unfolding close_each timeout_each verdict pick
  sweep_timeouts st now =
      timeout_each (close_each st (to_close now st.clients)) (to_time_out now st.clients)

  -- An event of a listener, or of a connection; the fuel is for `accept_all`.
  on_connection : State sys → Event → Outcome (State sys)
  unfolding handle_read handle_write
  on_connection st ev =
      if ev.readable
      then handle_read sys st ev.fd
      else if ev.writable
      then handle_write sys st ev.fd
      else returns st

  on_fd : ℕ → State sys → Event → Option ℕ → Outcome (State sys)
  unfolding on_connection accept_all
  on_fd fuel st ev (some addr_idx) = accept_all sys fuel st ev.fd addr_idx
  on_fd fuel st ev none = on_connection st ev

  unfoldable pub on_event : ℕ → State sys → Event → Outcome (State sys)
  unfolding on_fd
  on_event fuel st ev = on_fd fuel st ev (lookup ev.fd st.listener_addr)

  unfoldable pub on_events : ℕ → State sys → List Event → Outcome (State sys)
  on_events fuel st [] = returns st
  on_events fuel st (ev ∷ evs) = on_event fuel st ev >>= λ st'. on_events fuel st' evs

  -- The end of a round: the time is read, and timeouts are swept.
  swept : State sys → State sys
  unfolding sweep_timeouts
  swept st = let (now, os') = sys.now st.os in sweep_timeouts (record st { os = os' }) now

  polled : ℕ → State sys → Option (List Event) → Outcome (State sys)
  unfolding on_events swept
  polled fuel st none = returns st
  polled fuel st (some evs) = on_events fuel st evs >>= λ st'. returns (swept st')

  -- A failed poll is tried again in the next round.
  unfoldable pub round : ℕ → State sys → Outcome (State sys)
  unfolding polled
  round fuel st = let (p, os') = sys.poll st.os in polled fuel (record st { os = os' }) p

  -- `run` never ends; these are its first rounds.
  unfoldable pub run : ℕ → ℕ → State sys → Outcome (State sys)
  run fuel zero st = returns st
  run fuel (suc n) st = round fuel st >>= λ st'. run fuel n st'
