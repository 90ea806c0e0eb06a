-- ===== src/Server/Io/Accepts.antt =====
-- `accept_all` of server/mod.rs, and the server it leaves.
use servoxide.Prelude.{
  ℕ, zero, suc, ◌≡◌, ◌<◌, refl, ap, Bool, true, false, none, some, arith, inl, inr, Option-cases,
  length, Ends, Ends-map,
}
use servoxide.Dict.{nat_eq}
use servoxide.Dict.AllValues.{insert-AllValues}
use servoxide.Dict.Unique.{insert-Unique}
use servoxide.Poll.{want_readable}
use servoxide.Server.State.{new_client, System, State}
use servoxide.Server.Ready.{IsClient, IsReady}
use servoxide.Server.Io.{registered, set_up, accept_all}

module _ (sys : System) where
  registered-IsReady :
      (st : State sys) (fd addr_idx : ℕ) (p : Bool × sys.Os)
      → addr_idx < length st.addresses
      → IsReady sys st
      → IsReady sys (registered sys st fd addr_idx p)
  unfolding registered
  registered-IsReady st fd addr_idx (false, os') inside i = i
  registered-IsReady st fd addr_idx (true, os') inside i =
      let (now, os2) = sys.now os' in
      record {
        addresses_are = i.addresses_are;
        listeners_are = i.listeners_are;
        clients_unique = insert-Unique fd (new_client addr_idx now) st.clients i.clients_unique;
        clients_are =
            insert-AllValues (IsClient (length st.addresses)) fd (new_client addr_idx now)
              st.clients
              (record {
                addr_in = inside;
                written_in = omega arith;
                pending_in = omega arith;
                inbuf_small = omega arith;
              })
              i.clients_are;
      }

  set_up-IsReady :
      (st : State sys) (fd addr_idx : ℕ) (p : Bool × sys.Os)
      → addr_idx < length st.addresses
      → IsReady sys st
      → IsReady sys (set_up sys st fd addr_idx p)
  unfolding set_up
  set_up-IsReady st fd addr_idx (false, os') inside i = i
  set_up-IsReady st fd addr_idx (true, os') inside i =
      registered-IsReady st fd addr_idx (sys.poller_add os' fd want_readable) inside i

  set_up-addresses :
      (st : State sys) (fd addr_idx : ℕ) (p : Bool × sys.Os)
      → (set_up sys st fd addr_idx p).addresses ≡ st.addresses
  unfolding set_up registered
  set_up-addresses st fd addr_idx (false, os') = refl
  set_up-addresses st fd addr_idx (true, os') = go (sys.poller_add os' fd want_readable)
    where
      go : (p : Bool × sys.Os) → (registered sys st fd addr_idx p).addresses ≡ st.addresses
      go (false, os2) = refl
      go (true, os2) = refl

  -- Each of as many calls of `accept` as the fuel counts finds a connection, from this state on.
  abbrev pub Floods : ℕ → State sys → ℕ → ℕ → Type 0
  Floods zero st listener addr_idx = Unit
  Floods (suc fuel) st listener addr_idx =
      let os' = (sys.accept st.os listener).1 in
      (fd : ℕ) × ((sys.accept st.os listener).0 ≡ some fd)
      × Floods fuel (set_up sys (record st { os = os' }) fd addr_idx (sys.set_nonblocking os' fd))
          listener addr_idx

  -- The server after the loop is ready, and the last call of `accept` found no connection.
  abbrev pub HasAccepted : ℕ → State sys → Type 0
  HasAccepted listener st =
      IsReady sys st × ((os : sys.Os) × (sys.accept os listener ≡ (none, st.os)))

  -- On a ready server the loop of accept does not panic, and ends after a call that finds no
  -- connection, in a ready server; it goes on only as long as each call finds one.
  pub accept_all-Ends :
      (fuel : ℕ) (st : State sys) (listener addr_idx : ℕ)
      → addr_idx < length st.addresses
      → IsReady sys st
      → Ends
          (HasAccepted listener)
          ⊥
          (Floods fuel st listener addr_idx)
          (accept_all sys fuel st listener addr_idx)
  unfolding accept_all
  accept_all-Ends zero st listener addr_idx inside i = tt
  accept_all-Ends (suc fuel) st listener addr_idx inside i =
      let (accepted, os') = sys.accept st.os listener in
      elim (Option-cases accepted) [
        | inl last ↦ rw (last, accept_all) (i, (st.os, ap (λ a. (a, os')) last))
        | inr (fd, more) ↦
            (let st' : State sys = record st { os = os' } in
              let p = sys.set_nonblocking os' fd in
              let st1 = set_up sys st' fd addr_idx p in
              let inside' : addr_idx < length st1.addresses =
                rw (set_up-addresses st' fd addr_idx p) inside in
              rw (more, accept_all)
                (Ends-map (HasAccepted listener) (HasAccepted listener)
                  (accept_all sys fuel st1 listener addr_idx) (λ a e h. h) (λ q. q)
                  (λ r. (fd, refl, r))
                  (accept_all-Ends fuel st1 listener addr_idx inside'
                    (set_up-IsReady st' fd addr_idx p inside i))))
      ]
