-- ===== src/Config/Parser/Directive.antt =====
-- `read_directive` of config/parser.rs.
use servoxide.Prelude.{
  ℕ, zero, suc, List, [], ◌∷◌, ◌++◌, Option, none, some, Outcome, returns, out_of_fuel, ◌>>=◌,
}
use servoxide.Text.{Bytes, codes}
use servoxide.Dict.{nat_eq, text_eq}
use servoxide.Config.Tokens.{Tok, Lexed}
use servoxide.Config.Parser.{Parser, peek, advance, error}

-- Name, arguments and line.
pub record Directive : Type 0 where
  pub name : Bytes
  pub args : List Bytes
  pub line : ℕ

missing_semi : Parser → Bytes → ℕ → List Bytes → Outcome (List Bytes × Parser)
unfolding error
missing_semi p name line args =
    returns (args, error p line (codes "missing ';' after '" ++ (name ++ codes "' directive")))

-- The loop, with a unit of fuel for each argument and one for its end.
unfoldable pub read_args : ℕ → Parser → Bytes → ℕ → List Bytes → Outcome (List Bytes × Parser)
unfolding missing_semi advance
read_args zero p name line args = out_of_fuel
read_args (suc fuel) p name line args = elim (peek p) [
  | none ↦ missing_semi p name line args
  | some lx ↦ elim lx.tok [
    | Tok.semi ↦ returns (args, (advance p).1)
    | Tok.word w ↦ read_args fuel (advance p).1 name line (args ++ w ∷ [])
    | Tok.opening ↦ missing_semi p name line args
    | Tok.closing ↦ missing_semi p name line args
  ]
]

named : ℕ → Parser → Option Lexed → Outcome (Option Directive × Parser)
unfolding read_args
named fuel p none = returns (none, p)
named fuel p (some lx) = elim lx.tok [
  | Tok.word w ↦ read_args fuel p w lx.line [] >>= λ (args, p').
      returns (some (record { name = w; args = args; line = lx.line }), p')
  | _ ↦ returns (none, p)
]

unfoldable pub read_directive : ℕ → Parser → Outcome (Option Directive × Parser)
unfolding named advance
read_directive fuel p = let (lx, p') = advance p in named fuel p' lx
