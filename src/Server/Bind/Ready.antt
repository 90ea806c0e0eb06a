-- ===== src/Server/Bind/Ready.antt =====
-- `bind` of server/mod.rs and the server it makes.
use servoxide.Prelude.{
  ℕ, ◌+◌, ◌≡◌, ◌≤◌, ◌<◌, refl, sym, ap, ◌∙◌, subst, Bool, true, false, List, [], ◌∷◌, ◌++◌,
  append-nil, append_assoc, Option, none, some, arith, ◌⊎◌, inl, inr, Bool-cases, All,
  All-get_elem?, length, length-append, get_elem?-append_length, is_empty, returns,
}
use servoxide.Dict.{Dict, lookup, nat_eq}
use servoxide.Dict.AllValues.{AllValues, insert-AllValues}
use servoxide.Config.Types.{ServerConfig}
use servoxide.Cookies
use servoxide.Poll.{want_readable}
use servoxide.Server.Select.{Address}
use servoxide.Server.Select.Laws.{IsIndex}
use servoxide.Server.State.{System, State}
use servoxide.Server.Ready.{IsAddress, IsReady}
use servoxide.Server.Bind.{
  Groups, group_ports, group_servers, listen_on, bind_one, bind_each, started, with_poller, bind,
}
use servoxide.Server.Bind.Groups.{Pairs, of_key}
use servoxide.Server.Bind.Grouped.{IsGrouping, group_port-IsGrouping}

-- The pairs of the whole configuration, in its order.
unfoldable pub port_pairs : ℕ → List ℕ → List ℕ → Pairs
port_pairs si host [] = []
port_pairs si host (port ∷ ports) = ((host, port), si) ∷ port_pairs si host ports

unfoldable pub server_pairs : ℕ → List ServerConfig → Pairs
unfolding port_pairs
server_pairs si [] = []
server_pairs si (s ∷ ss) = port_pairs si s.host s.ports ++ server_pairs (si + 1) ss

group_ports-IsGrouping :
    (servers : List ServerConfig) (ps : Pairs) (g : Groups) (si : ℕ) (host ports : List ℕ)
    → IsIndex servers si
    → IsGrouping servers ps g
    → (g' : Groups) × (group_ports g si host ports ≡ returns g')
      × IsGrouping servers (ps ++ port_pairs si host ports) g'
unfolding group_ports port_pairs
group_ports-IsGrouping servers ps g si host [] inside i =
    (g, refl, subst (λ qs. IsGrouping servers qs g) (sym (append-nil ps)) i)
group_ports-IsGrouping servers ps g si host (port ∷ ports) inside i =
    let (g1, done, i1) = group_port-IsGrouping servers ps g si host port inside i in
    let (g2, done2, i2) =
      group_ports-IsGrouping servers (ps ++ ((host, port), si) ∷ []) g1 si host ports inside i1 in
    (
      g2,
      rw (done, done2) refl,
      subst (λ qs. IsGrouping servers qs g2)
          (append_assoc ps (((host, port), si) ∷ []) (port_pairs si host ports)) i2,
    )

group_rest-IsGrouping :
    (before ss : List ServerConfig) (ps : Pairs) (g : Groups)
    → IsGrouping (before ++ ss) ps g
    → (g' : Groups) × (group_servers g (length before) ss ≡ returns g')
      × IsGrouping (before ++ ss) (ps ++ server_pairs (length before) ss) g'
unfolding group_servers server_pairs
group_rest-IsGrouping before [] ps g i =
    (g, refl, subst (λ qs. IsGrouping (before ++ []) qs g) (sym (append-nil ps)) i)
group_rest-IsGrouping before (s ∷ ss) ps g i =
    let n = length before in
    let (g1, done, i1) =
      group_ports-IsGrouping (before ++ s ∷ ss) ps g n s.host s.ports
        (s, get_elem?-append_length before s ss) i in
    let next : length (before ++ s ∷ []) ≡ n + 1 = omega (arith, length-append before (s ∷ [])) in
    let again : (before ++ s ∷ []) ++ ss ≡ before ++ s ∷ ss = append_assoc before (s ∷ []) ss in
    let qs = ps ++ port_pairs n s.host s.ports in
    let (g2, done2, i2) =
      group_rest-IsGrouping (before ++ s ∷ []) ss qs g1
        (subst (λ l. IsGrouping l qs g1) (sym again) i1) in
    (
      g2,
      rw done (subst (λ m. group_servers g1 m ss ≡ returns g2) next done2),
      subst (λ rs. IsGrouping (before ++ s ∷ ss) rs g2)
          (ap (λ m. qs ++ server_pairs m ss) next
            ∙ append_assoc ps (port_pairs n s.host s.ports) (server_pairs (n + 1) ss))
          (subst (λ l. IsGrouping l (qs ++ server_pairs (length (before ++ s ∷ [])) ss) g2) again
            i2),
    )

-- Grouping the servers never panics. Each host and port that a server names has exactly one
-- address, which lists the servers that name it, in the order of the configuration, all in
-- bounds, and each address has a server at least.
pub group_servers-IsGrouping :
    (servers : List ServerConfig)
    → (g : Groups) × (group_servers ([], []) 0 servers ≡ returns g)
      × IsGrouping servers (server_pairs 0 servers) g
unfolding lookup of_key
group_servers-IsGrouping servers =
    group_rest-IsGrouping [] servers [] ([], [])
      (record {
        groups = record {
          indexed = λ j a h. absurd (cc);
          held = λ j a h. absurd (cc);
          in_bounds = λ j a h. absurd (cc);
          found = λ k j h. absurd (cc);
          missing = λ k h. refl;
        };
        addresses = λ j a h. absurd (cc);
      })

module _ (sys : System) where
  bind_one-AllValues :
      (n : ℕ) (listeners : Dict ℕ ℕ) (ai : ℕ) (p : Option ℕ × sys.Os)
      → ai < n
      → AllValues (λ (i : ℕ). i < n) listeners
      → AllValues (λ (i : ℕ). i < n) (bind_one sys listeners ai p).0
  unfolding bind_one listen_on
  bind_one-AllValues n listeners ai (none, os) inside all = all
  bind_one-AllValues n listeners ai (some fd, os) inside all =
      go (sys.poller_add os fd want_readable)
    where
      go : (p : Bool × sys.Os) → AllValues (λ (i : ℕ). i < n) (listen_on sys listeners ai fd p).0
      go (true, os') = insert-AllValues (λ (i : ℕ). i < n) fd ai listeners inside all
      go (false, os') = all

  bind_each-AllValues :
      (n : ℕ) (listeners : Dict ℕ ℕ) (ai : ℕ) (as' : List Address) (os : sys.Os)
      → ai + length as' ≤ n
      → AllValues (λ (i : ℕ). i < n) listeners
      → AllValues (λ (i : ℕ). i < n) (bind_each sys listeners ai as' os).0
  unfolding bind_each
  bind_each-AllValues n listeners ai [] os fits all = all
  bind_each-AllValues n listeners ai (a ∷ as') os fits all =
      let p = sys.bind_listener os a.host a.port in
      let (listeners', os') = bind_one sys listeners ai p in
      bind_each-AllValues n listeners' (ai + 1) as' os' (omega (arith, fits))
        (bind_one-AllValues n listeners ai p (omega (arith, fits)) all)

  -- The server that has started listens somewhere, has no connections yet, and is ready.
  pub record HasStarted (servers : List ServerConfig) (g : Groups) (st : State sys) : Type 0 where
    pub servers_are : st.servers ≡ servers
    pub addresses_are : st.addresses ≡ g.0
    pub listens : is_empty st.listener_addr ≡ false
    pub no_clients : st.clients ≡ []
    pub ready : IsReady sys st

  started-HasStarted :
      (servers : List ServerConfig) (g : Groups) (stored : sys.files.Files) (listeners : Dict ℕ ℕ)
      (os : sys.Os)
      → All (IsAddress servers) g.0
      → AllValues (λ (i : ℕ). i < length g.0) listeners
      → (started sys servers g.0 stored (listeners, os) ≡ none)
        ⊎ ((st : State sys) × (started sys servers g.0 stored (listeners, os) ≡ some st)
            × HasStarted servers g st)
  unfolding started
  started-HasStarted servers g stored listeners os addresses all =
      let st : State sys = record {
        servers = servers;
        addresses = g.0;
        listener_addr = listeners;
        clients = [];
        sessions = Cookies.new;
        os = os;
        stored = stored;
      } in
      elim (Bool-cases (is_empty listeners)) [
        | inl nowhere ↦ inl (rw nowhere refl)
        | inr somewhere ↦ inr (
          st,
          rw somewhere refl,
          record {
            servers_are = refl;
            addresses_are = refl;
            listens = somewhere;
            no_clients = refl;
            ready = record {
              addresses_are = addresses;
              listeners_are = all;
              clients_unique = tt;
              clients_are = tt;
            };
          },
        )
      ]

  with_poller-HasStarted :
      (servers : List ServerConfig) (g : Groups) (stored : sys.files.Files) (p : Bool × sys.Os)
      → All (IsAddress servers) g.0
      → (with_poller sys servers g.0 stored p ≡ none)
        ⊎ ((st : State sys) × (with_poller sys servers g.0 stored p ≡ some st)
            × HasStarted servers g st)
  unfolding with_poller
  with_poller-HasStarted servers g stored (false, os) addresses = inl refl
  with_poller-HasStarted servers g stored (true, os) addresses =
      let (listeners, os') = bind_each sys [] 0 g.0 os in
      started-HasStarted servers g stored listeners os' addresses
        (bind_each-AllValues (length g.0) [] 0 g.0 os (omega arith) tt)

  -- A bind never panics: it fails, or gives a ready server with the addresses of the grouping,
  -- that listens somewhere and has no connections yet.
  pub bind-HasStarted :
      (servers : List ServerConfig) (stored : sys.files.Files) (os : sys.Os)
      → (g : Groups) × IsGrouping servers (server_pairs 0 servers) g
        × ((bind sys servers stored os ≡ returns none)
            ⊎ ((st : State sys) × (bind sys servers stored os ≡ returns (some st))
                × HasStarted servers g st))
  unfolding bind
  bind-HasStarted servers stored os =
      let (g, done, i) = group_servers-IsGrouping servers in
      let addresses = All-get_elem? (IsAddress servers) g.0 i.addresses in
      (
        g,
        i,
        elim (with_poller-HasStarted servers g stored (sys.poller_new os) addresses) [
          | inl e ↦ inl (rw (done, e) refl)
          | inr (st, e, s) ↦ inr (st, rw (done, e) refl, s)
        ],
      )
