-- ===== src/Config/Parser/Server.antt =====
-- `parse_directive` of config/parser.rs.
use servoxide.Prelude.{
  ℕ, ◌-◌, ◌||◌, List, [], ◌∷◌, ◌++◌, Option, none, some, last?, is_empty, ltb, length, take,
  if◌then◌else◌, Outcome, returns, ◌>>=◌,
}
use servoxide.Text.{Bytes, bytes_eq, codes, parse_u16}
use servoxide.Dict.{insert, nat_eq, text_eq}
use servoxide.Config.Types.{ServerConfig}
use servoxide.Config.Size.{SizeResult, parse_size}
use servoxide.Config.Ipv4.{ipv4_from_str}
use servoxide.Config.Parser.{Parser, error, quoted}
use servoxide.Config.Parser.Directive.{Directive, read_directive}

set_ip : ServerConfig → Parser → ℕ → Bytes → Option (List ℕ) → ServerConfig × Parser
unfolding error
set_ip s p line h (some ip) = (record s { host = ip; host_str = h }, p)
set_ip s p line h none = (s, error p line (codes "invalid host " ++ quoted h))

unfoldable pub host_directive : ServerConfig → Parser → ℕ → List Bytes → ServerConfig × Parser
unfolding set_ip error ipv4_from_str
host_directive s p line (h ∷ hs) = set_ip s p line h (ipv4_from_str h)
host_directive s p line [] = (s, error p line (codes "'host' requires an address"))

push_port : ServerConfig → Parser → ℕ → Bytes → Option ℕ → ServerConfig × Parser
unfolding error
push_port s p line a (some port) = (record s { ports = s.ports ++ port ∷ [] }, p)
push_port s p line a none = (s, error p line (codes "invalid port " ++ quoted a))

unfoldable pub push_ports : ServerConfig → Parser → ℕ → List Bytes → ServerConfig × Parser
unfolding push_port parse_u16
push_ports s p line [] = (s, p)
push_ports s p line (a ∷ as') =
    let (s', p') = push_port s p line a (parse_u16 a) in push_ports s' p' line as'

unfoldable pub port_directive : ServerConfig → Parser → ℕ → List Bytes → ServerConfig × Parser
unfolding push_ports error
port_directive s p line args =
    push_ports s
      (if is_empty args then error p line (codes "'port' requires at least one value") else p) line
      args

unfoldable pub server_name_directive :
    ServerConfig → Parser → ℕ → List Bytes → ServerConfig × Parser
unfolding error
server_name_directive s p line args = (
  record s { server_names = s.server_names ++ args },
  if is_empty args then error p line (codes "'server_name' requires at least one name") else p,
)

insert_page : ServerConfig → Parser → ℕ → Bytes → Bytes → Option ℕ → ServerConfig × Parser
unfolding error
insert_page s p line path code (some c) =
    (record s { error_pages = insert c path s.error_pages }, p)
insert_page s p line path code none = (s, error p line (codes "invalid error code " ++ quoted code))

unfoldable pub insert_pages : ServerConfig → Parser → ℕ → Bytes → List Bytes → ServerConfig × Parser
unfolding insert_page parse_u16
insert_pages s p line path [] = (s, p)
insert_pages s p line path (code ∷ cs) =
    let (s', p') = insert_page s p line path code (parse_u16 code) in
    insert_pages s' p' line path cs

-- The codes, and the path behind them; `args.last()` is there where this is called.
pages_of : ServerConfig → Parser → ℕ → List Bytes → Option Bytes → ServerConfig × Parser
unfolding insert_pages error
pages_of s p line cs none = (s, p)
pages_of s p line cs (some path) = insert_pages s p line path cs

unfoldable pub error_page_directive : ServerConfig → Parser → ℕ → List Bytes → ServerConfig × Parser
unfolding pages_of error
error_page_directive s p line args =
    if ltb (length args) 2
    then (s, error p line (codes "'error_page' requires a code and a path"))
    else pages_of s p line (take (length args - 1) args) (last? args)

set_size : ServerConfig → Parser → ℕ → SizeResult → ServerConfig × Parser
unfolding error
set_size s p line (SizeResult.size n) = (record s { client_max_body_size = n }, p)
set_size s p line (SizeResult.error e) = (s, error p line e)

unfoldable pub size_directive : ServerConfig → Parser → ℕ → List Bytes → ServerConfig × Parser
unfolding set_size error parse_size
size_directive s p line (a ∷ as') = set_size s p line (parse_size a)
size_directive s p line [] = (s, error p line (codes "'client_max_body_size' requires a value"))

unfoldable pub server_directive : ServerConfig → Parser → Directive → ServerConfig × Parser
unfolding host_directive port_directive server_name_directive error_page_directive size_directive
    error
server_directive s p d =
    if bytes_eq d.name (codes "host")
    then host_directive s p d.line d.args
    else if bytes_eq d.name (codes "port") || bytes_eq d.name (codes "listen")
    then port_directive s p d.line d.args
    else if bytes_eq d.name (codes "server_name")
    then server_name_directive s p d.line d.args
    else if bytes_eq d.name (codes "error_page")
    then error_page_directive s p d.line d.args
    else if bytes_eq d.name (codes "client_max_body_size")
    then size_directive s p d.line d.args
    else (s, error p d.line (codes "unknown directive " ++ quoted d.name))

unfoldable pub parse_directive : ℕ → Parser → ServerConfig → Outcome (ServerConfig × Parser)
unfolding read_directive server_directive
parse_directive fuel p s = read_directive fuel p >>= λ (d, p'). elim d [
  | none ↦ returns (s, p')
  | some d' ↦ returns (server_directive s p' d')
]
