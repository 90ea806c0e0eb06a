-- ===== src/Server/Select.antt =====
-- `Address` and `select_server` of server/mod.rs. The configuration is its list of servers.
pub mod Laws
use servoxide.Prelude.{
  ℕ, Bool, List, [], ◌∷◌, Option, none, some, any, get_elem?, if◌then◌else◌, Outcome, returns,
  panics,
}
use servoxide.Text.{Bytes, eq_ignore_ascii_case, split, trim}
use servoxide.Config.Types.{ServerConfig}

-- The host is its four octets; the servers are indices, in the order of their declaration.
pub record Address : Type 0 where
  pub host : List ℕ
  pub port : ℕ
  pub label : Bytes
  pub servers : List ℕ

unfoldable pub has_name : Bytes → ServerConfig → Bool
has_name name s = any (λ n. eq_ignore_ascii_case n name) s.server_names

-- The index of the first server of that name; an index out of bounds panics.
unfoldable pub find_named : List ServerConfig → Bytes → List ℕ → Outcome (Option ℕ)
unfolding has_name
find_named servers name [] = returns none
find_named servers name (si ∷ sis) =
    let rest = find_named servers name sis in
    elim (get_elem? servers si) [
      | none ↦ panics
      | some s ↦ if has_name name s then returns (some si) else rest
    ]

-- `h.split(':').next().unwrap_or("").trim()`.
unfoldable pub host_name : List Bytes → Bytes
host_name [] = []
host_name (p ∷ ps) = trim p

-- `addr.servers[0]`.
unfoldable pub default_server : List ℕ → Outcome ℕ
default_server [] = panics
default_server (si ∷ sis) = returns si

unfoldable pub or_default : List ℕ → Outcome (Option ℕ) → Outcome ℕ
unfolding default_server
or_default sis (returns (some si)) = returns si
or_default sis (returns none) = default_server sis
or_default sis panics = panics
or_default sis Outcome.out_of_fuel = Outcome.out_of_fuel

unfoldable pub select_server : List ServerConfig → Address → Option Bytes → Outcome ℕ
unfolding find_named or_default host_name
select_server servers addr none = default_server addr.servers
select_server servers addr (some h) =
    or_default addr.servers (find_named servers (host_name (split b':' h)) addr.servers)
