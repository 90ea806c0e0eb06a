-- ===== src/Server/Loop/Ready.antt =====
-- `run` of server/mod.rs, for any number of rounds, and the server it leaves.
use servoxide.Prelude.{
  Runs, Runs-map, Ends, Ends-map, Ends-bind, Runs-Ends, ℕ, zero, suc, ◌≡◌, refl, ◌<◌, List, [], ◌∷◌,
  none, inl, inr, Bool-cases, Option-cases, length, returns,
}
use servoxide.Dict.{lookup, nat_eq}
use servoxide.Dict.AllValues.{lookup-AllValues}
use servoxide.Poll.{Event}
use servoxide.Server.State.{System, State}
use servoxide.Server.Dispatch.{remove_client, respond_error}
use servoxide.Server.Dispatch.Ready.{remove_client-IsReady, respond_error-IsReady}
use servoxide.Server.Io.{handle_read, handle_write, accept_all}
use servoxide.Server.Io.Reads.{handle_read-Runs}
use servoxide.Server.Io.Writes.{handle_write-Runs}
use servoxide.Server.Io.Accepts.{HasAccepted, accept_all-Ends}
use servoxide.Server.Promises.{WritesWithin}
use servoxide.Server.Ready.{IsReady}
use servoxide.Server.Loop.{
  to_close, to_time_out, close_each, timeout_each, sweep_timeouts, on_connection, on_fd, on_event,
  on_events, swept, polled, round, run,
}
use servoxide.Server.Loop.Reasons.{
  EventChokes, EventFloods, ReachesEvent, at_event, after_event, ReachesInRound, Reaches, in_round,
  after_round,
}

module _ (sys : System) where
  close_each-IsReady :
      (st : State sys) (fds : List ℕ) → IsReady sys st → IsReady sys (close_each sys st fds)
  unfolding close_each
  close_each-IsReady st [] i = i
  close_each-IsReady st (fd ∷ fds) i =
      close_each-IsReady (remove_client sys st fd) fds (remove_client-IsReady sys st fd i)

  timeout_each-IsReady :
      (st : State sys) (fds : List ℕ) → IsReady sys st → IsReady sys (timeout_each sys st fds)
  unfolding timeout_each
  timeout_each-IsReady st [] i = i
  timeout_each-IsReady st (fd ∷ fds) i =
      timeout_each-IsReady (respond_error sys st fd 408 none) fds
        (respond_error-IsReady sys st fd 408 none i)

  sweep_timeouts-IsReady :
      (st : State sys) (now : ℕ) → IsReady sys st → IsReady sys (sweep_timeouts sys st now)
  unfolding sweep_timeouts
  sweep_timeouts-IsReady st now i =
      timeout_each-IsReady (close_each sys st (to_close now st.clients))
        (to_time_out now st.clients) (close_each-IsReady st (to_close now st.clients) i)

module _ (sys : System) (within : WritesWithin sys) where
  on_connection-Runs :
      (st : State sys) (ev : Event)
      → lookup ev.fd st.listener_addr ≡ none
      → IsReady sys st
      → Runs (IsReady sys) (EventChokes sys st ev) (on_connection sys st ev)
  unfolding on_connection
  on_connection-Runs st ev connection i = elim (Bool-cases ev.readable) [
    | inl r ↦ rw r (
        Runs-map (IsReady sys) (handle_read sys st ev.fd)
          (λ c. record { connection = connection; chokes = inl (refl, c) })
          (handle_read-Runs sys st ev.fd i))
    | inr not_r ↦ rw not_r (elim (Bool-cases ev.writable) [
      | inl w ↦ rw w (
          Runs-map (IsReady sys) (handle_write sys st ev.fd)
            (λ c. record { connection = connection; chokes = inr (refl, refl, c) })
            (handle_write-Runs sys st ev.fd within i))
      | inr not_w ↦ rw not_w i
    ])
  ]

  pub on_event-Runs :
      (fuel : ℕ) (st : State sys) (ev : Event)
      → lookup ev.fd st.listener_addr ≡ none
      → IsReady sys st
      → Runs (IsReady sys) (EventChokes sys st ev) (on_event sys fuel st ev)
  unfolding on_event on_fd
  on_event-Runs fuel st ev connection i = rw connection (on_connection-Runs st ev connection i)

module _ (sys : System) (within : WritesWithin sys) (fuel : ℕ) where
  on_event-Ends :
      (st : State sys) (ev : Event)
      → IsReady sys st
      → Ends
          (IsReady sys)
          (EventChokes sys st ev)
          (EventFloods sys fuel st ev)
          (on_event sys fuel st ev)
  on_event-Ends st ev i = elim (Option-cases (lookup ev.fd st.listener_addr)) [
    | inl connection ↦
        Runs-Ends (IsReady sys) (EventFloods sys fuel st ev) (on_event sys fuel st ev) (λ c. c)
          (on_event-Runs sys within fuel st ev connection i)
    | inr (addr_idx, listener) ↦
        (let inside =
            lookup-AllValues (λ (i : ℕ). i < length st.addresses) ev.fd st.listener_addr addr_idx
              listener i.listeners_are in
          unfold on_event on_fd in
          rw listener (
            Ends-map (HasAccepted sys ev.fd) (IsReady sys) (accept_all sys fuel st ev.fd addr_idx)
              (λ st' e h. h.0) (λ b. absurd b)
              (λ f. record { addr_idx = addr_idx; listener = listener; floods = f })
              (accept_all-Ends sys fuel st ev.fd addr_idx inside i)))
  ]

  on_events-Ends :
      (st : State sys) (evs : List Event)
      → IsReady sys st
      → Ends
          (IsReady sys)
          (ReachesEvent sys fuel (EventChokes sys) st evs)
          (ReachesEvent sys fuel (EventFloods sys fuel) st evs)
          (on_events sys fuel st evs)
  unfolding on_events
  on_events-Ends st [] i = i
  on_events-Ends st (ev ∷ evs) i =
      Ends-bind (IsReady sys) (IsReady sys) (on_event sys fuel st ev)
        (λ st'. on_events sys fuel st' evs) (on_event-Ends st ev i) (λ c. at_event c)
        (λ f. at_event f)
        (λ st' e i'.
          Ends-map (IsReady sys) (IsReady sys) (on_events sys fuel st' evs) (λ st2 e2 h. h)
            (λ c. after_event e c) (λ f. after_event e f) (on_events-Ends st' evs i'))

  round-Ends :
      (st : State sys)
      → IsReady sys st
      → Ends
          (IsReady sys)
          (ReachesInRound sys fuel (EventChokes sys) st)
          (ReachesInRound sys fuel (EventFloods sys fuel) st)
          (round sys fuel st)
  unfolding round polled swept
  round-Ends st i =
      let (p, os') = sys.poll st.os in
      let st1 : State sys = record st { os = os' } in
      elim (Option-cases p) [
        | inl failed ↦ rw (failed, polled) i
        | inr (evs, e) ↦
            rw (e, polled)
              (Ends-bind (IsReady sys) (IsReady sys) (on_events sys fuel st1 evs)
                (λ st'. returns (swept sys st')) (on_events-Ends st1 evs i)
                (λ c. record { events = evs; polled_is = e; reaches = c })
                (λ f. record { events = evs; polled_is = e; reaches = f })
                (λ st' e' i'.
                  let (now, os2) = sys.now st'.os in
                  sweep_timeouts-IsReady sys (record st' { os = os2 }) now i'))
      ]

  -- The rounds of the loop keep a ready server ready. They panic only if this run comes to an
  -- event of a connection whose buffer then reaches 2^63 bytes or holds a chunked body that makes
  -- its decoder panic, and spend the fuel of accept_all only if this run comes to an event of a
  -- listener on which as many calls of accept in a row find a connection. It is assumed that a
  -- write takes no more than it is given.
  pub run-Ends :
      (n : ℕ) (st : State sys)
      → IsReady sys st
      → Ends
          (IsReady sys)
          (Reaches sys fuel (EventChokes sys) n st)
          (Reaches sys fuel (EventFloods sys fuel) n st)
          (run sys fuel n st)
  unfolding run
  run-Ends zero st i = i
  run-Ends (suc n) st i =
      Ends-bind (IsReady sys) (IsReady sys) (round sys fuel st) (run sys fuel n) (round-Ends st i)
        (λ c. in_round c) (λ f. in_round f)
        (λ st' e i'.
          Ends-map (IsReady sys) (IsReady sys) (run sys fuel n st') (λ st2 e2 h. h)
            (λ c. after_round e c) (λ f. after_round e f) (run-Ends n st' i'))
