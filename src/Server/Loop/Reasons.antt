-- ===== src/Server/Loop/Reasons.antt =====
-- Why rounds of the loop of server/mod.rs panic, or spend the fuel of `accept_all`: the reason is
-- one of an event that the very run comes to, in the state in which it comes to it.
use servoxide.Prelude.{ℕ, suc, ◌≡◌, true, false, List, ◌∷◌, none, some, ◌⊎◌, returns}
use servoxide.Dict.{lookup, nat_eq}
use servoxide.Poll.{Event}
use servoxide.Server.State.{System, State}
use servoxide.Server.Io.Reads.{ReadChokes}
use servoxide.Server.Io.Writes.{NextChokes}
use servoxide.Server.Io.Accepts.{Floods}
use servoxide.Server.Loop.{on_event, round}

module _ (sys : System) where
  -- The event is one of a connection. The bytes that arrive choke it, or those that wait behind
  -- its answered request do.
  pub record EventChokes (st : State sys) (ev : Event) : Type 0 where
    pub connection : lookup ev.fd st.listener_addr ≡ none
    pub chokes :
        ((ev.readable ≡ true) × ReadChokes sys st ev.fd)
        ⊎ ((ev.readable ≡ false) × (ev.writable ≡ true) × NextChokes sys st ev.fd)

  -- The event is one of a listener, which has as many connections as the fuel counts.
  pub record EventFloods (fuel : ℕ) (st : State sys) (ev : Event) : Type 0 where
    pub addr_idx : ℕ
    pub listener : lookup ev.fd st.listener_addr ≡ some addr_idx
    pub floods : Floods sys fuel st ev.fd addr_idx

module _ (sys : System) (fuel : ℕ) (R : State sys → Event → Type 0) where
  -- Of these events, handled in turn from the state, the run comes to one with the reason.
  pub data ReachesEvent : State sys → List Event → Type 0 where
    at_event :
        {st : State sys} {ev : Event} {evs : List Event} → R st ev → ReachesEvent st (ev ∷ evs)
    after_event :
        {st st' : State sys} {ev : Event} {evs : List Event}
        → on_event sys fuel st ev ≡ returns st'
        → ReachesEvent st' evs
        → ReachesEvent st (ev ∷ evs)

  -- The round from the state does.
  pub record ReachesInRound (st : State sys) : Type 0 where
    pub events : List Event
    pub polled_is : (sys.poll st.os).0 ≡ some events
    pub reaches : ReachesEvent (record st { os = (sys.poll st.os).1 }) events

  -- One of the first so many rounds does.
  pub data Reaches : ℕ → State sys → Type 0 where
    in_round : {n : ℕ} {st : State sys} → ReachesInRound st → Reaches (suc n) st
    after_round :
        {n : ℕ} {st st' : State sys}
        → round sys fuel st ≡ returns st'
        → Reaches n st'
        → Reaches (suc n) st
