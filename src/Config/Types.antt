-- ===== src/Config/Types.antt =====
-- The types of config/mod.rs and their defaults.
use servoxide.Prelude.{ℕ, ◌*◌, Bool, false, List, [], ◌∷◌, Option, none}
use servoxide.Text.{Bytes, codes}
use servoxide.Dict.{Dict}

abbrev pub default_max_body_size : ℕ
default_max_body_size = 1024 * 1024

pub record Route : Type 0 where
  pub path : Bytes
  pub methods : List Bytes
  pub root : Option Bytes
  pub index : Option Bytes
  pub autoindex : Bool
  pub cgi : Dict Bytes Bytes
  pub redirect : Option (ℕ × Bytes)

-- The host is its four octets.
pub record ServerConfig : Type 0 where
  pub host : List ℕ
  pub host_str : Bytes
  pub ports : List ℕ
  pub server_names : List Bytes
  pub error_pages : Dict ℕ Bytes
  pub client_max_body_size : ℕ
  pub routes : List Route

pub record Config : Type 0 where
  pub servers : List ServerConfig

abbrev pub new_server : ServerConfig
new_server = record {
  host = 127 ∷ 0 ∷ 0 ∷ 1 ∷ [];
  host_str = codes "127.0.0.1";
  ports = [];
  server_names = [];
  error_pages = [];
  client_max_body_size = default_max_body_size;
  routes = [];
}

abbrev pub new_route : Bytes → Route
new_route path = record {
  path = path;
  methods = [];
  root = none;
  index = none;
  autoindex = false;
  cgi = [];
  redirect = none;
}
