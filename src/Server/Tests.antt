-- ===== src/Server/Tests.antt =====
-- The choice of a server block for a concrete request.
use servoxide.Prelude.{◌≡◌, refl, List, [], ◌∷◌, some, returns}
use servoxide.Text.{codes, split, trim, bytes_eq, to_ascii_lowercase, eq_ignore_ascii_case}
use servoxide.Config.Types.{ServerConfig, new_server}
use servoxide.Server.Select.{Address, host_name, select_server}

abbrev blocks : List ServerConfig
blocks =
    record new_server { server_names = codes "a.example" ∷ [] }
    ∷ record new_server { server_names = codes "B.example" ∷ [] }
    ∷ []

abbrev local : Address
local = record {
  host = 127 ∷ 0 ∷ 0 ∷ 1 ∷ [];
  port = 80;
  label = codes "127.0.0.1:80";
  servers = 0 ∷ 1 ∷ [];
}

select_server-port : select_server blocks local (some (codes "b.example:80")) ≡ returns 1
unfolding select_server host_name codes split trim bytes_eq to_ascii_lowercase eq_ignore_ascii_case
select_server-port = refl
