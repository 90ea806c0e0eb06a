-- ===== src/Config/Parser/Blocks.antt =====
-- The blocks and the top level of config/parser.rs, and `parse`.
use servoxide.Prelude.{
  ℕ, zero, suc, Bool, true, false, List, [], ◌∷◌, ◌++◌, Option, none, some, is_empty, length,
  if◌then◌else◌, Outcome, returns, out_of_fuel, ◌>>=◌,
}
use servoxide.Text.{Bytes, bytes_eq, codes}
use servoxide.Config.Types.{ServerConfig, Route, Config, new_server, new_route}
use servoxide.Config.Tokens.{Tok, Lexed, tokenize}
use servoxide.Config.Bindings.{resolve}
use servoxide.Config.Parser.{
  Parser, new, peek, advance, error, line_of, last_line, describe, expect_open,
}
use servoxide.Config.Parser.Server.{parse_directive}
use servoxide.Config.Parser.Route.{parse_route_directive}

-- A token that has no place here is reported and passed over.
unfoldable pub unexpected : Parser → ℕ → Tok → Bytes → Parser
unfolding advance error describe
unexpected p line t place =
    (advance (error p line (codes "unexpected " ++ (describe t ++ place)))).1

abbrev pub push_route : ServerConfig → Option Route → ServerConfig
push_route s none = s
push_route s (some r) = record s { routes = s.routes ++ r ∷ [] }

-- A block without a port is dropped.
unfoldable pub with_port : ServerConfig × Parser → Option ServerConfig × Parser
unfolding error last_line
with_port (s, p) =
    if is_empty s.ports
    then (none, error p (last_line p) (codes "'server' block has no 'port'"))
    else (some s, p)

-- `expected 'server'`.
unfoldable pub stray : Parser → ℕ → Tok → Parser
unfolding error describe advance
stray p line t = (advance (error p line (codes "expected 'server', found " ++ describe t))).1

abbrev pub push_server : List ServerConfig → Option ServerConfig → List ServerConfig
push_server ss none = ss
push_server ss (some s) = ss ++ s ∷ []

-- The servers that survive, and the errors.
pub record ParseOutcome : Type 0 where
  pub config : Config
  pub errors : List Bytes

module _ (to_uppercase : Bytes → Bytes) where
  -- The loop over a route's directives, with a unit of fuel for each turn.
  unfoldable pub route_loop : ℕ → Parser → Route → Outcome (Route × Parser)
  unfolding parse_route_directive unexpected error last_line advance
  route_loop zero p r = out_of_fuel
  route_loop (suc fuel) p r = elim (peek p) [
    | none ↦ returns (r, error p (last_line p) (codes "unterminated 'route' block (missing '}')"))
    | some lx ↦ elim lx.tok [
      | Tok.closing ↦ returns (r, (advance p).1)
      | Tok.word w ↦
          parse_route_directive to_uppercase fuel p r >>= λ (r', p'). route_loop fuel p' r'
      | Tok.opening ↦ route_loop fuel (unexpected p lx.line lx.tok (codes " in 'route' block")) r
      | Tok.semi ↦ route_loop fuel (unexpected p lx.line lx.tok (codes " in 'route' block")) r
    ]
  ]

  unfoldable pub route_body : ℕ → Bytes → Bool × Parser → Outcome (Option Route × Parser)
  unfolding route_loop
  route_body fuel path (true, p) =
      route_loop fuel p (new_route path) >>= λ (r, p'). returns (some r, p')
  route_body fuel path (false, p) = returns (none, p)

  no_path : Parser → ℕ → Outcome (Option Route × Parser)
  unfolding error
  no_path p line = returns (none, error p line (codes "'route' requires a path"))

  route_path : ℕ → ℕ → Option Lexed × Parser → Outcome (Option Route × Parser)
  unfolding route_body no_path expect_open
  route_path fuel line (none, p) = no_path p line
  route_path fuel line (some lx, p) = elim lx.tok [
    | Tok.word path ↦ route_body fuel path (expect_open p (codes "route"))
    | _ ↦ no_path p line
  ]

  unfoldable pub parse_route_block : ℕ → Parser → Outcome (Option Route × Parser)
  unfolding route_path line_of advance
  parse_route_block fuel p = route_path fuel (line_of (peek p)) (advance (advance p).1)

  -- The loop over a server's directives and routes.
  unfoldable pub server_loop : ℕ → Parser → ServerConfig → Outcome (ServerConfig × Parser)
  unfolding parse_route_block parse_directive unexpected error last_line advance
  server_loop zero p s = out_of_fuel
  server_loop (suc fuel) p s = elim (peek p) [
    | none ↦ returns (s, error p (last_line p) (codes "unterminated 'server' block (missing '}')"))
    | some lx ↦ elim lx.tok [
      | Tok.closing ↦ returns (s, (advance p).1)
      | Tok.word w ↦
          (let next : Outcome (ServerConfig × Parser) =
              if bytes_eq w (codes "route")
              then (parse_route_block fuel p >>= λ (r, p'). returns (push_route s r, p'))
              else parse_directive fuel p s in
            next >>= λ (s', p'). server_loop fuel p' s')
      | Tok.opening ↦ server_loop fuel (unexpected p lx.line lx.tok (codes " in 'server' block")) s
      | Tok.semi ↦ server_loop fuel (unexpected p lx.line lx.tok (codes " in 'server' block")) s
    ]
  ]

  unfoldable pub server_body : ℕ → Bool × Parser → Outcome (Option ServerConfig × Parser)
  unfolding server_loop with_port
  server_body fuel (true, p) = server_loop fuel p new_server >>= λ r. returns (with_port r)
  server_body fuel (false, p) = returns (none, p)

  unfoldable pub parse_server_block : ℕ → Parser → Outcome (Option ServerConfig × Parser)
  unfolding server_body expect_open
  parse_server_block fuel p = server_body fuel (expect_open p (codes "server"))

  -- The top level.
  unfoldable pub parse_servers :
      ℕ → Parser → List ServerConfig → Outcome (List ServerConfig × Parser)
  unfolding parse_server_block stray advance
  parse_servers zero p ss = out_of_fuel
  parse_servers (suc fuel) p ss = elim (peek p) [
    | none ↦ returns (ss, p)
    | some lx ↦
        (let other : Outcome (Option ServerConfig × Parser) =
            returns (none, stray p lx.line lx.tok) in
          let block : Outcome (Option ServerConfig × Parser) = elim lx.tok [
            | Tok.word w ↦
                if bytes_eq w (codes "server") then parse_server_block fuel (advance p).1 else other
            | _ ↦ other
          ] in
          block >>= λ (s, p'). parse_servers fuel p' (push_server ss s))
  ]

  -- Each loop has fuel for one turn more than there are tokens.
  unfoldable pub parse : Bytes → Outcome ParseOutcome
  unfolding parse_servers tokenize resolve
  parse input =
      let toks = tokenize input in
      parse_servers (suc (length toks)) (new toks) [] >>= λ (servers, p).
      (let (errors, kept) = resolve [] p.errors [] servers in
        returns (record { config = record { servers = kept }; errors = errors }))
