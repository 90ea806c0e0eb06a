-- ===== src/Server/Loop/Tests.antt =====
-- The server of server/mod.rs over the toy system.
use servoxide.Prelude.{
  ℕ, false, ap, ◌*◌, Runs, Ends, ◌≡◌, ◌⊎◌, refl, true, List, [], ◌∷◌, none, some, arith, returns,
}
use servoxide.Text.{codes}
use servoxide.Dict.{lookup, remove, nat_eq}
use servoxide.Cookies
use servoxide.Config.Types.{ServerConfig, new_server}
use servoxide.Server.Select.{Address}
use servoxide.Server.State.{Client, new_client, State}
use servoxide.Server.Ready.{IsReady}
use servoxide.Server.Toy.{toy, asked, toy-WritesWithin}
use servoxide.Server.Dispatch.{try_dispatch, remove_client}
use servoxide.Server.Dispatch.Runs.{DispatchChokes, try_dispatch-Runs}
use servoxide.Server.Io.{accept_all}
use servoxide.Server.Io.Accepts.{HasAccepted, Floods, accept_all-Ends}
use servoxide.Server.Bind.{Groups, group_servers, bind}
use servoxide.Server.Bind.Grouped.{IsGrouping}
use servoxide.Server.Bind.Ready.{
  server_pairs, group_servers-IsGrouping, HasStarted, bind-HasStarted,
}
use servoxide.Server.Dispatch.Isolated.{Same}
use servoxide.Server.Loop.Isolated.{on_event-isolated}
use servoxide.Server.Loop.{on_event, run, verdict, pick, close_each, timeout_each, sweep_timeouts}
use servoxide.Server.Loop.Sweep.{Swept, sweep_timeouts-Swept}
use servoxide.Server.Loop.Stalled.{IsActive, sweep_timeouts-IsActive}
use servoxide.Poll.{Event}
use servoxide.Server.Loop.Reasons.{EventChokes, EventFloods, Reaches}
use servoxide.Server.Loop.Ready.{run-Ends}

abbrev servers : List ServerConfig
servers =
    record new_server { ports = 80 ∷ 81 ∷ [] }
    ∷ record new_server { ports = 80 ∷ []; server_names = codes "b" ∷ [] }
    ∷ []

group_servers-IsGrouping_example :
    (g : Groups) × (group_servers ([], []) 0 servers ≡ returns g)
    × IsGrouping servers (server_pairs 0 servers) g
group_servers-IsGrouping_example = group_servers-IsGrouping servers

bind-HasStarted_example :
    (g : Groups) × IsGrouping servers (server_pairs 0 servers) g
    × ((bind toy servers tt true ≡ returns none)
        ⊎ ((st : State toy) × (bind toy servers tt true ≡ returns (some st))
            × HasStarted toy servers g st))
bind-HasStarted_example = bind-HasStarted toy servers tt true

-- One listener, and a connection whose request has come.
abbrev on_80 : Address
unfolding codes
on_80 = record {
  host = 127 ∷ 0 ∷ 0 ∷ 1 ∷ [];
  port = 80;
  label = codes "127.0.0.1:80";
  servers = 0 ∷ 1 ∷ [];
}

abbrev open_state : State toy
open_state = record {
  servers = servers;
  addresses = on_80 ∷ [];
  listener_addr = (80, 0) ∷ [];
  clients = (9, record (new_client 0 7) { inbuf = asked }) ∷ [];
  sessions = Cookies.new;
  os = true;
  stored = tt;
}

open_state-IsReady : IsReady toy open_state
unfolding codes lookup
open_state-IsReady = record {
  addresses_are = (
    record {
      default = 0;
      others = 1 ∷ [];
      servers_are = refl;
      in_bounds = ((_, refl), ((_, refl), tt));
    },
    tt,
  );
  listeners_are = (omega arith, tt);
  clients_unique = (refl, tt);
  clients_are = (
    record {
      addr_in = omega arith;
      written_in = omega arith;
      pending_in = omega arith;
      inbuf_small = omega arith;
    },
    tt,
  );
}

try_dispatch-Runs_example :
    Runs (IsReady toy) (DispatchChokes toy open_state 9) (try_dispatch toy open_state 9)
try_dispatch-Runs_example = try_dispatch-Runs toy open_state 9 open_state-IsReady

accept_all-Ends_example :
    Ends (HasAccepted toy 80) ⊥ (Floods toy 2 open_state 80 0) (accept_all toy 2 open_state 80 0)
accept_all-Ends_example = accept_all-Ends toy 2 open_state 80 0 (omega arith) open_state-IsReady

run-Ends_example :
    Ends
      (IsReady toy)
      (Reaches toy 2 (EventChokes toy) 3 open_state)
      (Reaches toy 2 (EventFloods toy 2) 3 open_state)
      (run toy 2 3 open_state)
run-Ends_example = run-Ends toy toy-WritesWithin 2 3 open_state open_state-IsReady

-- One connection has just sent a part of a request, and another has been idle for a minute.
abbrev second : ℕ
second = 1000000000

abbrev reading : Client
reading = record (new_client 0 (60 * second)) { inbuf = asked }

abbrev two_clients : State toy
two_clients = record open_state { clients = (9, reading) ∷ (10, new_client 0 7) ∷ [] }

two_clients-IsReady : IsReady toy two_clients
unfolding lookup codes
two_clients-IsReady = record {
  addresses_are = open_state-IsReady.addresses_are;
  listeners_are = open_state-IsReady.listeners_are;
  clients_unique = (refl, (refl, tt));
  clients_are = (
    record {
      addr_in = omega arith;
      written_in = omega arith;
      pending_in = omega arith;
      inbuf_small = omega arith;
    },
    (
      record {
        addr_in = omega arith;
        written_in = omega arith;
        pending_in = omega arith;
        inbuf_small = omega arith;
      },
      tt,
    ),
  );
}

two_clients-found : lookup 9 two_clients.clients ≡ some reading
unfolding lookup
two_clients-found = refl

two_clients-swept : (sweep_timeouts toy two_clients (61 * second)).clients ≡ (9, reading) ∷ []
unfolding sweep_timeouts pick verdict close_each timeout_each remove_client remove codes
two_clients-swept = refl

-- It is the fortieth second after the part of the request.
sweep_timeouts-Swept_example :
    Swept toy two_clients (100 * second) 9 reading (verdict (100 * second) reading)
sweep_timeouts-Swept_example =
    sweep_timeouts-Swept toy two_clients (100 * second) 9 reading two_clients-IsReady
      two_clients-found

two_clients-left : lookup 9 (sweep_timeouts toy two_clients (61 * second)).clients ≡ some reading
unfolding lookup
two_clients-left = ap (lookup 9) two_clients-swept

sweep_timeouts-IsActive_example : IsActive (61 * second) reading
sweep_timeouts-IsActive_example =
    sweep_timeouts-IsActive toy two_clients (61 * second) 9 reading two_clients-IsReady
      two_clients-left

abbrev readable_9 : Event
readable_9 = record { fd = 9; readable = true; writable = false }

on_event-isolated_example :
    Runs
      (λ st. IsReady toy st × Same toy 10 two_clients st)
      (EventChokes toy two_clients readable_9)
      (on_event toy 2 two_clients readable_9)
unfolding lookup
on_event-isolated_example =
    on_event-isolated toy 2 two_clients readable_9 10 toy-WritesWithin two_clients-IsReady refl refl
