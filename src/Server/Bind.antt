-- ===== src/Server/Bind.antt =====
-- `Server::bind` of server/mod.rs.
pub mod Groups
pub mod Grouped
pub mod Ready
use servoxide.Prelude.{
  ℕ, zero, suc, ◌+◌, ◌≡◌, ◌↔◌, Bool, true, false, ◌&&◌, List, [], ◌∷◌, ◌++◌, Option, none, some,
  arith, ◌==◌, if◌then◌else◌, is_empty, length, Outcome, returns, panics, ◌>>=◌,
}
use servoxide.Text.{Bytes, bytes_eq, bytes_eq_iff, to_string}
use servoxide.Dict.{Dict, Eq, lookup, insert, nat_eq}
use servoxide.Config.Types.{ServerConfig}
use servoxide.Cookies
use servoxide.Poll.{want_readable}
use servoxide.Server.Select.{Address}
use servoxide.Server.State.{System, State}

-- Host and port.
abbrev pub AddrKey : Type 0
AddrKey = Bytes × ℕ

pub addr_key_beq : AddrKey → AddrKey → Bool
addr_key_beq (h, p) (h', p') = bytes_eq h h' && (p == p')

pub addr_key_beq_iff : (j k : AddrKey) → (addr_key_beq j k ≡ true) ↔ (j ≡ k)
unfolding addr_key_beq
addr_key_beq_iff (h, p) (h', p') = ground (arith, bytes_eq_iff h h')

instance abbrev pub addr_key_eq : Eq AddrKey
addr_key_eq = record { beq = addr_key_beq; beq_iff = addr_key_beq_iff }

-- `{a}.{b}.{c}.{d}:{port}`.
dotted : List ℕ → Bytes
dotted [] = []
dotted (a ∷ []) = to_string a
dotted (a ∷ b ∷ os) = to_string a ++ (b'.' ∷ dotted (b ∷ os))

unfoldable pub new_address : List ℕ → ℕ → Address
unfolding dotted
new_address host port = record {
  host = host;
  port = port;
  label = dotted host ++ (b':' ∷ to_string port);
  servers = [];
}

-- `addresses[idx].servers.push(si)`.
unfoldable pub push_server : List Address → ℕ → ℕ → Outcome (List Address)
push_server [] idx si = panics
push_server (a ∷ as') zero si = returns (record a { servers = a.servers ++ si ∷ [] } ∷ as')
push_server (a ∷ as') (suc idx) si = push_server as' idx si >>= λ rest. returns (a ∷ rest)

-- The addresses so far, and where each stands.
abbrev pub Groups : Type 0
Groups = List Address × Dict AddrKey ℕ

-- `entry(key).or_insert_with(..)`: the groups, and the index of the key.
unfoldable pub entry_of : Groups → List ℕ → ℕ → Option ℕ → Groups × ℕ
unfolding new_address
entry_of g host port (some idx) = (g, idx)
entry_of (addresses, index_of) host port none = (
  (addresses ++ new_address host port ∷ [], insert (host, port) (length addresses) index_of),
  length addresses,
)

unfoldable pub group_port : Groups → ℕ → List ℕ → ℕ → Outcome Groups
unfolding entry_of push_server
group_port (addresses, index_of) si host port =
    let ((addresses', index_of'), idx) =
      entry_of (addresses, index_of) host port (lookup (host, port) index_of) in
    push_server addresses' idx si >>= λ pushed. returns (pushed, index_of')

unfoldable pub group_ports : Groups → ℕ → List ℕ → List ℕ → Outcome Groups
unfolding group_port
group_ports g si host [] = returns g
group_ports g si host (port ∷ ports) =
    group_port g si host port >>= λ g'. group_ports g' si host ports

-- The loop over the servers, from the index of the first.
unfoldable pub group_servers : Groups → ℕ → List ServerConfig → Outcome Groups
unfolding group_ports
group_servers g si [] = returns g
group_servers g si (s ∷ ss) = group_ports g si s.host s.ports >>= λ g'. group_servers g' (si + 1) ss

module _ (sys : System) where
  -- A listener that is bound goes to the poller; one that cannot be registered is closed.
  listen_on : Dict ℕ ℕ → ℕ → ℕ → Bool × sys.Os → Dict ℕ ℕ × sys.Os
  listen_on listeners ai fd (true, os) = (insert fd ai listeners, os)
  listen_on listeners ai fd (false, os) = (listeners, sys.close os fd)

  unfoldable pub bind_one : Dict ℕ ℕ → ℕ → Option ℕ × sys.Os → Dict ℕ ℕ × sys.Os
  unfolding listen_on
  bind_one listeners ai (none, os) = (listeners, os)
  bind_one listeners ai (some fd, os) =
      listen_on listeners ai fd (sys.poller_add os fd want_readable)

  unfoldable pub bind_each : Dict ℕ ℕ → ℕ → List Address → sys.Os → Dict ℕ ℕ × sys.Os
  unfolding bind_one
  bind_each listeners ai [] os = (listeners, os)
  bind_each listeners ai (a ∷ as') os =
      let (listeners', os') = bind_one listeners ai (sys.bind_listener os a.host a.port) in
      bind_each listeners' (ai + 1) as' os'

  -- `none` is an `Err`.
  started :
      List ServerConfig → List Address → sys.files.Files → Dict ℕ ℕ × sys.Os → Option (State sys)
  started servers addresses stored (listeners, os) =
      if is_empty listeners
      then none
      else some (record {
        servers = servers;
        addresses = addresses;
        listener_addr = listeners;
        clients = [];
        sessions = Cookies.new;
        os = os;
        stored = stored;
      })

  with_poller :
      List ServerConfig → List Address → sys.files.Files → Bool × sys.Os → Option (State sys)
  unfolding started bind_each
  with_poller servers addresses stored (false, os) = none
  with_poller servers addresses stored (true, os) =
      started servers addresses stored (bind_each [] 0 addresses os)

  unfoldable pub bind : List ServerConfig → sys.files.Files → sys.Os → Outcome (Option (State sys))
  unfolding group_servers with_poller
  bind servers stored os = group_servers ([], []) 0 servers >>= λ g.
      returns (with_poller servers g.0 stored (sys.poller_new os))
