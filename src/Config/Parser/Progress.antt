-- ===== src/Config/Parser/Progress.antt =====
-- The tokens that the parser of config/parser.rs has left.
use servoxide.Prelude.{
  Runs, Runs-weaken, Runs-bind, ℕ, zero, suc, ◌+◌, ◌-◌, ◌≡◌, ◌≤◌, ◌<◌, refl, List, [], ◌∷◌, ◌++◌,
  some, arith, ◌⊎◌, inl, inr, Option-cases, get_elem?-lt_length, length, returns,
}
use servoxide.Text.{Bytes}
use servoxide.Config.Tokens.{Tok, Lexed}
use servoxide.Config.Parser.{Parser, peek, advance, error}
use servoxide.Config.Parser.Directive.{read_args, read_directive}

-- The tokens that are left.
abbrev pub remaining : Parser → ℕ
remaining p = length p.toks - p.pos

-- A token that can be seen is the one that is read, and one fewer is left.
pub advance_lem :
    (p : Parser) (lx : Lexed)
    → peek p ≡ some lx
    → ((advance p).0 ≡ some lx) × (remaining (advance p).1 + 1 ≡ remaining p)
unfolding advance
advance_lem p lx seen =
    let inside = get_elem?-lt_length p.toks p.pos lx seen in
    (rw seen seen, rw seen (omega (arith, inside)))

-- At the end of the tokens the parser stays.
pub advance-le : (p : Parser) → remaining (advance p).1 ≤ remaining p
unfolding advance
advance-le p = elim (Option-cases (peek p)) [
  | inl end ↦ rw end (omega arith)
  | inr (lx, seen) ↦ rw seen (omega arith)
]

-- What the token that is seen may be.
pub Tok-cases :
    (t : Tok)
    → ((w : Bytes) × (t ≡ Tok.word w)) ⊎ ((t ≡ Tok.opening) ⊎ ((t ≡ Tok.closing) ⊎ (t ≡ Tok.semi)))
Tok-cases (Tok.word w) = inl (w, refl)
Tok-cases Tok.opening = inr (inl refl)
Tok-cases Tok.closing = inr (inr (inl refl))
Tok-cases Tok.semi = inr (inr (inr refl))

-- The arguments are read to their end.
read_args-Runs :
    (fuel : ℕ) (p : Parser) (name : Bytes) (line : ℕ) (args : List Bytes)
    → remaining p < fuel
    → Runs (λ r. remaining r.1 ≤ remaining p) ⊥ (read_args fuel p name line args)
unfolding read_args error
read_args-Runs zero p name line args enough = omega (arith, enough)
read_args-Runs (suc fuel) p name line args enough = elim (Option-cases (peek p)) [
  | inl end ↦ rw (end, read_args) (omega arith)
  | inr (lx, seen) ↦
      (let next = (advance_lem p lx seen).1 in
        elim (Tok-cases lx.tok) [
          | inl (w, e) ↦
              rw (seen, e, read_args)
                (Runs-weaken (λ r. remaining r.1 ≤ remaining (advance p).1)
                  (λ r. remaining r.1 ≤ remaining p) ⊥
                  (read_args fuel (advance p).1 name line (args ++ w ∷ []))
                  (λ r h. omega (arith, next, h))
                  (read_args-Runs fuel (advance p).1 name line (args ++ w ∷ [])
                    (omega (arith, next, enough))))
          | inr (inl e) ↦ rw (seen, e, read_args) (omega arith)
          | inr (inr (inl e)) ↦ rw (seen, e, read_args) (omega arith)
          | inr (inr (inr e)) ↦ rw (seen, e, read_args) (omega (arith, next))
        ])
]

-- A directive that starts with a token is read, and takes that token at least.
pub read_directive-Runs :
    (fuel : ℕ) (p : Parser) (lx : Lexed)
    → peek p ≡ some lx
    → remaining p ≤ fuel
    → Runs (λ r. remaining r.1 < remaining p) ⊥ (read_directive fuel p)
unfolding read_directive
read_directive-Runs fuel p lx seen enough =
    let (here, next) = advance_lem p lx seen in
    elim (Tok-cases lx.tok) [
      | inl (w, e) ↦
          rw (here, e)
            (Runs-bind (λ r. remaining r.1 ≤ remaining (advance p).1)
              (λ r. remaining r.1 < remaining p) ⊥ (read_args fuel (advance p).1 w lx.line [])
              (λ (args, p'). returns (some (record { name = w; args = args; line = lx.line }), p'))
              (read_args-Runs fuel (advance p).1 w lx.line [] (omega (arith, next, enough)))
              (λ r h. omega (arith, next, h)))
      | inr (inl e) ↦ rw (here, e) (omega (arith, next))
      | inr (inr (inl e)) ↦ rw (here, e) (omega (arith, next))
      | inr (inr (inr e)) ↦ rw (here, e) (omega (arith, next))
    ]
