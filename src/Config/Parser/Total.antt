-- ===== src/Config/Parser/Total.antt =====
-- How far the loops of config/parser.rs read.
use servoxide.Prelude.{
  Runs, Runs-weaken, Runs-bind, ℕ, zero, suc, ◌≡◌, ◌≤◌, ◌<◌, refl, Bool, true, false, List, ◌++◌,
  Option, none, some, arith, inl, inr, Bool-cases, Option-cases, All, All-append_one, is_empty,
  Outcome, returns,
}
use servoxide.Text.{Bytes, bytes_eq, codes}
use servoxide.Config.Types.{ServerConfig, Route, new_server}
use servoxide.Config.Tokens.{Tok, Lexed}
use servoxide.Config.Parser.{Parser, peek, advance, error, describe, expect_open}
use servoxide.Config.Parser.Directive.{read_directive}
use servoxide.Config.Parser.Server.{server_directive, parse_directive}
use servoxide.Config.Parser.Blocks.{
  unexpected, parse_route_block, push_route, server_loop, with_port, server_body,
  parse_server_block, stray, push_server, parse_servers,
}
use servoxide.Config.Parser.Progress.{remaining, advance_lem, Tok-cases, read_directive-Runs}
use servoxide.Config.Parser.Sound.{IsRoute, IsServer, server_directive-Kept}
use servoxide.Config.Parser.Routes.{
  Fewer, UpTo, expect_open-le, unexpected_lem, MaybeRoute, parse_route_block-Runs,
}

parse_directive-Runs :
    (fuel : ℕ) (p : Parser) (s : ServerConfig) (lx : Lexed)
    → peek p ≡ some lx
    → remaining p ≤ fuel
    → IsServer s
    → Runs (Fewer IsServer p) ⊥ (parse_directive fuel p s)
unfolding parse_directive
parse_directive-Runs fuel p s lx seen enough i =
    Runs-bind (λ r. remaining r.1 < remaining p) (Fewer IsServer p) ⊥ (read_directive fuel p)
      (λ (d, p'). elim d [ none ↦ returns (s, p') | some d' ↦ returns (server_directive s p' d') ])
      (read_directive-Runs fuel p lx seen enough)
      (λ (d, p') fewer. elim (Option-cases d) [
        | inl e ↦ rw e (i, fewer)
        | inr (d', e) ↦
            rw e
              (let (i', same) = server_directive-Kept s p' d' i in (i', omega (arith, same, fewer)))
      ])

-- A token that is stray is taken.
stray_lem :
    (p : Parser) (lx : Lexed) → peek p ≡ some lx → remaining (stray p lx.line lx.tok) < remaining p
unfolding stray error
stray_lem p lx seen = omega (
  arith,
  (advance_lem (error p lx.line (codes "expected 'server', found " ++ describe lx.tok)) lx seen).1,
)

push_route-IsServer :
    (s : ServerConfig) (r : Option Route) → IsServer s → MaybeRoute r → IsServer (push_route s r)
push_route-IsServer s none i m = i
push_route-IsServer s (some r) i m = record {
  host_is = i.host_is;
  ports_are = i.ports_are;
  codes_are = i.codes_are;
  size_is = i.size_is;
  routes_are = All-append_one IsRoute s.routes r i.routes_are m;
}

new_server-IsServer : IsServer new_server
new_server-IsServer = record {
  host_is = (refl, (omega arith, (omega arith, (omega arith, (omega arith, tt)))));
  ports_are = tt;
  codes_are = tt;
  size_is = omega arith;
  routes_are = tt;
}

-- A server that survives listens on a port.
pub record IsBlock (s : ServerConfig) : Type 0 where
  pub server : IsServer s
  pub has_port : is_empty s.ports ≡ false

abbrev MaybeBlock : Option ServerConfig → Type 0
MaybeBlock none = Unit
MaybeBlock (some s) = IsBlock s

with_port-Runs : (q : ServerConfig × Parser) → IsServer q.0 → UpTo MaybeBlock q.1 (with_port q)
unfolding with_port error
with_port-Runs (s, p) i = elim (Bool-cases (is_empty s.ports)) [
  | inl e ↦ rw e (tt, omega arith)
  | inr e ↦ rw e (record { server = i; has_port = e }, omega arith)
]

module _ (to_uppercase : Bytes → Bytes) where
  server_loop-Runs :
      (fuel : ℕ) (p : Parser) (s : ServerConfig)
      → remaining p < fuel
      → IsServer s
      → Runs (UpTo IsServer p) ⊥ (server_loop to_uppercase fuel p s)
  unfolding server_loop error
  server_loop-Runs zero p s enough i = omega (arith, enough)
  server_loop-Runs (suc fuel) p s enough i = elim (Option-cases (peek p)) [
    | inl end ↦ rw (end, server_loop) (i, omega arith)
    | inr (lx, seen) ↦
        (let skip = λ (t : Tok).
            (let pass : Parser = unexpected p lx.line t (codes " in 'server' block") in
              let passed = unexpected_lem p lx lx.line t (codes " in 'server' block") seen in
              Runs-weaken (UpTo IsServer pass) (UpTo IsServer p) ⊥
                (server_loop to_uppercase fuel pass s)
                (λ q (i', le). (i', omega (arith, passed, le)))
                (server_loop-Runs fuel pass s (omega (arith, passed, enough)) i)) in
          let go_on = λ (o : Outcome (ServerConfig × Parser)) (h : Runs (Fewer IsServer p) ⊥ o).
            (Runs-bind (Fewer IsServer p) (UpTo IsServer p) ⊥ o
              (λ (s', p'). server_loop to_uppercase fuel p' s') h
              (λ (s', p') (i', fewer).
                Runs-weaken (UpTo IsServer p') (UpTo IsServer p) ⊥
                  (server_loop to_uppercase fuel p' s')
                  (λ q (i2, le). (i2, omega (arith, fewer, le)))
                  (server_loop-Runs fuel p' s' (omega (arith, fewer, enough)) i'))) in
          elim (Tok-cases lx.tok) [
            | inl (w, e) ↦ elim (Bool-cases (bytes_eq w (codes "route"))) [
              | inl route ↦
                  rw (seen, e, route, server_loop)
                    (go_on _ (
                      Runs-bind (Fewer MaybeRoute p) (Fewer IsServer p) ⊥
                        (parse_route_block to_uppercase fuel p)
                        (λ (r, p'). returns (push_route s r, p'))
                        (parse_route_block-Runs to_uppercase fuel p lx seen (omega (arith, enough)))
                        (λ (r, p') (m, fewer). (push_route-IsServer s r i m, fewer))))
              | inr directive ↦
                  rw (seen, e, directive, server_loop)
                    (go_on (parse_directive fuel p s)
                      (parse_directive-Runs fuel p s lx seen (omega (arith, enough)) i))
            ]
            | inr (inl e) ↦ rw (seen, e, server_loop) (skip lx.tok)
            | inr (inr (inl e)) ↦
                rw (seen, e, server_loop) (i, omega (arith, (advance_lem p lx seen).1))
            | inr (inr (inr e)) ↦ rw (seen, e, server_loop) (skip lx.tok)
          ])
  ]

  server_body-Runs :
      (fuel : ℕ) (q : Bool × Parser)
      → remaining q.1 < fuel
      → Runs (UpTo MaybeBlock q.1) ⊥ (server_body to_uppercase fuel q)
  unfolding server_body
  server_body-Runs fuel (false, p) enough = (tt, omega arith)
  server_body-Runs fuel (true, p) enough =
      Runs-bind (UpTo IsServer p) (UpTo MaybeBlock p) ⊥ (server_loop to_uppercase fuel p new_server)
        (λ r. returns (with_port r)) (server_loop-Runs fuel p new_server enough new_server-IsServer)
        (λ r (i, le). let (m, le') = with_port-Runs r i in (m, omega (arith, le, le')))

  parse_server_block-Runs :
      (fuel : ℕ) (p : Parser)
      → remaining p < fuel
      → Runs (UpTo MaybeBlock p) ⊥ (parse_server_block to_uppercase fuel p)
  unfolding parse_server_block
  parse_server_block-Runs fuel p enough =
      let q = expect_open p (codes "server") in
      let le = expect_open-le p (codes "server") in
      Runs-weaken (UpTo MaybeBlock q.1) (UpTo MaybeBlock p) ⊥ (server_body to_uppercase fuel q)
        (λ r (m, le'). (m, omega (arith, le, le')))
        (server_body-Runs fuel q (omega (arith, le, enough)))

  push_server-All :
      (ss : List ServerConfig) (s : Option ServerConfig)
      → All IsBlock ss
      → MaybeBlock s
      → All IsBlock (push_server ss s)
  push_server-All ss none all m = all
  push_server-All ss (some s) all m = All-append_one IsBlock ss s all m

  pub parse_servers-Runs :
      (fuel : ℕ) (p : Parser) (ss : List ServerConfig)
      → remaining p < fuel
      → All IsBlock ss
      → Runs (λ r. All IsBlock r.0) ⊥ (parse_servers to_uppercase fuel p ss)
  unfolding parse_servers
  parse_servers-Runs zero p ss enough all = omega (arith, enough)
  parse_servers-Runs (suc fuel) p ss enough all = elim (Option-cases (peek p)) [
    | inl end ↦ rw (end, parse_servers) all
    | inr (lx, seen) ↦
        (let go_on =
            λ (o : Outcome (Option ServerConfig × Parser)) (h : Runs (Fewer MaybeBlock p) ⊥ o).
              (Runs-bind (Fewer MaybeBlock p) (λ r. All IsBlock r.0) ⊥ o
                (λ (s, p'). parse_servers to_uppercase fuel p' (push_server ss s)) h
                (λ (s, p') (m, fewer).
                  parse_servers-Runs fuel p' (push_server ss s) (omega (arith, fewer, enough))
                    (push_server-All ss s all m))) in
          let skip = go_on (returns (none, stray p lx.line lx.tok)) (tt, stray_lem p lx seen) in
          let next = (advance_lem p lx seen).1 in
          elim (Tok-cases lx.tok) [
            | inl (w, e) ↦ elim (Bool-cases (bytes_eq w (codes "server"))) [
              | inl server ↦
                  rw (seen, e, server, parse_servers)
                    (go_on (parse_server_block to_uppercase fuel (advance p).1) (
                      Runs-weaken (UpTo MaybeBlock (advance p).1) (Fewer MaybeBlock p) ⊥
                        (parse_server_block to_uppercase fuel (advance p).1)
                        (λ r (m, le). (m, omega (arith, next, le)))
                        (parse_server_block-Runs fuel (advance p).1 (omega (arith, next, enough)))))
              | inr stray_word ↦ rw (seen, e, stray_word, parse_servers) skip
            ]
            | inr (inl e) ↦ rw (seen, e, parse_servers) skip
            | inr (inr (inl e)) ↦ rw (seen, e, parse_servers) skip
            | inr (inr (inr e)) ↦ rw (seen, e, parse_servers) skip
          ])
  ]
