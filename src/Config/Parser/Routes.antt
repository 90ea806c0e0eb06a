-- ===== src/Config/Parser/Routes.antt =====
-- How far `parse_route_block` of config/parser.rs reads.
use servoxide.Prelude.{
  Runs, Runs-weaken, Runs-bind, ℕ, zero, suc, ◌+◌, ◌≡◌, ◌≤◌, ◌<◌, Bool, true, false, ◌++◌, Option,
  none, some, arith, inl, inr, Option-cases, returns,
}
use servoxide.Text.{Bytes, codes}
use servoxide.Config.Types.{Route, new_route}
use servoxide.Config.Tokens.{Tok, Lexed}
use servoxide.Config.Parser.{Parser, peek, advance, error, line_of, describe, expect_open}
use servoxide.Config.Parser.Directive.{read_directive}
use servoxide.Config.Parser.Route.{route_directive, parse_route_directive}
use servoxide.Config.Parser.Blocks.{unexpected, route_body, route_loop, parse_route_block}
use servoxide.Config.Parser.Progress.{
  remaining, advance_lem, advance-le, Tok-cases, read_directive-Runs,
}
use servoxide.Config.Parser.Sound.{IsRoute}
use servoxide.Config.Parser.Fields.{route_directive-IsRoute}

-- What has been read, and the tokens that are left: fewer than before, or no more.
abbrev pub Fewer : {A : Type 0} → (A → Type 0) → Parser → A × Parser → Type 0
Fewer P p r = P r.0 × (remaining r.1 < remaining p)

abbrev pub UpTo : {A : Type 0} → (A → Type 0) → Parser → A × Parser → Type 0
UpTo P p r = P r.0 × (remaining r.1 ≤ remaining p)

pub expect_open-le : (p : Parser) (ctx : Bytes) → remaining (expect_open p ctx).1 ≤ remaining p
unfolding expect_open error
expect_open-le p ctx = elim (Option-cases (peek p)) [
  | inl end ↦ rw end (omega arith)
  | inr (lx, seen) ↦ elim (Tok-cases lx.tok) [
    | inl (w, e) ↦ rw (seen, e) (omega arith)
    | inr (inl e) ↦ rw (seen, e) (advance-le p)
    | inr (inr (inl e)) ↦ rw (seen, e) (omega arith)
    | inr (inr (inr e)) ↦ rw (seen, e) (omega arith)
  ]
]

pub unexpected_lem :
    (p : Parser) (lx : Lexed) (line : ℕ) (t : Tok) (place : Bytes)
    → peek p ≡ some lx
    → remaining (unexpected p line t place) + 1 ≡ remaining p
unfolding unexpected error
unexpected_lem p lx line t place seen =
    (advance_lem (error p line (codes "unexpected " ++ (describe t ++ place))) lx seen).1

abbrev pub MaybeRoute : Option Route → Type 0
MaybeRoute none = Unit
MaybeRoute (some r) = IsRoute r

module _ (to_uppercase : Bytes → Bytes) where
  parse_route_directive-Runs :
      (fuel : ℕ) (p : Parser) (r : Route) (lx : Lexed)
      → peek p ≡ some lx
      → remaining p ≤ fuel
      → IsRoute r
      → Runs (Fewer IsRoute p) ⊥ (parse_route_directive to_uppercase fuel p r)
  unfolding parse_route_directive
  parse_route_directive-Runs fuel p r lx seen enough i =
      Runs-bind (λ q. remaining q.1 < remaining p) (Fewer IsRoute p) ⊥ (read_directive fuel p)
        (λ (d, p'). elim d [
          | none ↦ returns (r, p')
          | some d' ↦ returns (route_directive to_uppercase r p' d')
        ])
        (read_directive-Runs fuel p lx seen enough)
        (λ (d, p') fewer. elim (Option-cases d) [
          | inl e ↦ rw e (i, fewer)
          | inr (d', e) ↦ rw e (
              let (i', same) = route_directive-IsRoute to_uppercase r p' d' i in
              (i', omega (arith, same, fewer)))
        ])

  route_loop-Runs :
      (fuel : ℕ) (p : Parser) (r : Route)
      → remaining p < fuel
      → IsRoute r
      → Runs (UpTo IsRoute p) ⊥ (route_loop to_uppercase fuel p r)
  unfolding route_loop error
  route_loop-Runs zero p r enough i = omega (arith, enough)
  route_loop-Runs (suc fuel) p r enough i = elim (Option-cases (peek p)) [
    | inl end ↦ rw (end, route_loop) (i, omega arith)
    | inr (lx, seen) ↦
        (let go_on = λ (t : Tok).
            (let pass : Parser = unexpected p lx.line t (codes " in 'route' block") in
              let passed = unexpected_lem p lx lx.line t (codes " in 'route' block") seen in
              Runs-weaken (UpTo IsRoute pass) (UpTo IsRoute p) ⊥
                (route_loop to_uppercase fuel pass r)
                (λ q (i', le). (i', omega (arith, passed, le)))
                (route_loop-Runs fuel pass r (omega (arith, passed, enough)) i)) in
          elim (Tok-cases lx.tok) [
            | inl (w, e) ↦
                rw (seen, e, route_loop)
                  (Runs-bind (Fewer IsRoute p) (UpTo IsRoute p) ⊥
                    (parse_route_directive to_uppercase fuel p r)
                    (λ (r', p'). route_loop to_uppercase fuel p' r')
                    (parse_route_directive-Runs fuel p r lx seen (omega (arith, enough)) i)
                    (λ (r', p') (i', fewer).
                      Runs-weaken (UpTo IsRoute p') (UpTo IsRoute p) ⊥
                        (route_loop to_uppercase fuel p' r')
                        (λ q (i2, le). (i2, omega (arith, fewer, le)))
                        (route_loop-Runs fuel p' r' (omega (arith, fewer, enough)) i')))
            | inr (inl e) ↦ rw (seen, e, route_loop) (go_on lx.tok)
            | inr (inr (inl e)) ↦
                rw (seen, e, route_loop) (i, omega (arith, (advance_lem p lx seen).1))
            | inr (inr (inr e)) ↦ rw (seen, e, route_loop) (go_on lx.tok)
          ])
  ]

  route_body-Runs :
      (fuel : ℕ) (path : Bytes) (q : Bool × Parser)
      → remaining q.1 < fuel
      → Runs (UpTo MaybeRoute q.1) ⊥ (route_body to_uppercase fuel path q)
  unfolding route_body
  route_body-Runs fuel path (false, p) enough = (tt, omega arith)
  route_body-Runs fuel path (true, p) enough =
      Runs-bind (UpTo IsRoute p) (UpTo MaybeRoute p) ⊥
        (route_loop to_uppercase fuel p (new_route path)) (λ (r, p'). returns (some r, p'))
        (route_loop-Runs fuel p (new_route path) enough (λ c u h. absurd (cc))) (λ (r, p') i. i)

  -- A route block takes its first token, and ends.
  pub parse_route_block-Runs :
      (fuel : ℕ) (p : Parser) (lx : Lexed)
      → peek p ≡ some lx
      → remaining p ≤ fuel
      → Runs (Fewer MaybeRoute p) ⊥ (parse_route_block to_uppercase fuel p)
  unfolding parse_route_block error
  parse_route_block-Runs fuel p lx seen enough =
      let p1 = (advance p).1 in
      let fewer = (advance_lem p lx seen).1 in
      let (found, p2) = advance p1 in
      let still = advance-le p1 in
      let no_path : Fewer MaybeRoute p
          (none, error p2 (line_of (peek p)) (codes "'route' requires a path")) =
        (tt, omega (arith, fewer, still)) in
      elim (Option-cases found) [
        | inl end ↦ rw (end, parse_route_block) no_path
        | inr (lx2, e) ↦ elim (Tok-cases lx2.tok) [
          | inr (inl t) ↦ rw (e, t, parse_route_block) no_path
          | inr (inr (inl t)) ↦ rw (e, t, parse_route_block) no_path
          | inr (inr (inr t)) ↦ rw (e, t, parse_route_block) no_path
          | inl (path, t) ↦
              rw (e, t, parse_route_block)
                (let le = expect_open-le p2 (codes "route") in
                  Runs-weaken (UpTo MaybeRoute (expect_open p2 (codes "route")).1)
                    (Fewer MaybeRoute p) ⊥
                    (route_body to_uppercase fuel path (expect_open p2 (codes "route")))
                    (λ q (i, le'). (i, omega (arith, fewer, still, le, le')))
                    (route_body-Runs fuel path (expect_open p2 (codes "route"))
                      (omega (arith, fewer, still, le, enough))))
        ]
      ]
