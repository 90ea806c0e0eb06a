-- ===== src/Server/Loop/Isolated.antt =====
-- An event of one connection in server/mod.rs, and the other connections.
use servoxide.Prelude.{
  Runs, Anyway, Runs-Anyway, ℕ, ◌≡◌, refl, false, none, inl, inr, Bool-cases, ◌==◌,
}
use servoxide.Dict.{lookup, nat_eq}
use servoxide.Poll.{Event}
use servoxide.Server.State.{System, State}
use servoxide.Server.Ready.{IsReady}
use servoxide.Server.Promises.{WritesWithin}
use servoxide.Server.Dispatch.Isolated.{Same}
use servoxide.Server.Io.Isolated.{handle_read-Same, handle_write-Same}
use servoxide.Server.Loop.{on_event}
use servoxide.Server.Loop.Reasons.{EventChokes}
use servoxide.Server.Loop.Ready.{on_event-Runs}

module _ (sys : System) where
  on_event-Same :
      (fuel : ℕ) (st : State sys) (ev : Event) (fd : ℕ)
      → lookup ev.fd st.listener_addr ≡ none
      → (ev.fd == fd) ≡ false
      → Anyway (Same sys fd st) (on_event sys fuel st ev)
  unfolding on_event
  on_event-Same fuel st ev fd connection other = rw connection (elim (Bool-cases ev.readable) [
    | inl r ↦ rw r (handle_read-Same sys ev.fd fd other st)
    | inr not_r ↦ rw not_r (elim (Bool-cases ev.writable) [
      | inl w ↦ rw w (handle_write-Same sys ev.fd fd other st)
      | inr not_w ↦ rw not_w refl
    ])
  ])

  -- On a ready server, an event of one connection leaves every other connection as it is, and
  -- ends in a ready server. It panics only if the event is readable and the bytes that this very
  -- connection's read gives make its buffer reach 2^63 bytes or hold a chunked body that makes
  -- its decoder panic, or if it is writable only and the bytes behind the answered request do. It
  -- is assumed that a write takes no more than it is given.
  pub on_event-isolated :
      (fuel : ℕ) (st : State sys) (ev : Event) (fd : ℕ)
      → WritesWithin sys
      → IsReady sys st
      → lookup ev.fd st.listener_addr ≡ none
      → (ev.fd == fd) ≡ false
      → Runs
          (λ st'. IsReady sys st' × Same sys fd st st')
          (EventChokes sys st ev)
          (on_event sys fuel st ev)
  on_event-isolated fuel st ev fd within i connection other =
      Runs-Anyway (IsReady sys) (Same sys fd st) (EventChokes sys st ev) (on_event sys fuel st ev)
        (on_event-Runs sys within fuel st ev connection i)
        (on_event-Same fuel st ev fd connection other)
