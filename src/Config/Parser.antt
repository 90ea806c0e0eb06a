-- ===== src/Config/Parser.antt =====
-- The parser's state and its tokens, config/parser.rs. A position is an index.
pub mod Directive
pub mod Server
pub mod Route
pub mod Blocks
pub mod Progress
pub mod Sound
pub mod Fields
pub mod Routes
pub mod Total
pub mod Valid
mod Tests
use servoxide.Prelude.{
  ℕ, zero, suc, ◌+◌, ◌-◌, Bool, true, false, List, [], ◌∷◌, ◌++◌, Option, none, some, get_elem?,
  is_some, last?, if◌then◌else◌,
}
use servoxide.Text.{Bytes, codes, to_string}
use servoxide.Config.Tokens.{Tok, Lexed}

pub record Parser : Type 0 where
  pub toks : List Lexed
  pub pos : ℕ
  pub errors : List Bytes

abbrev pub new : List Lexed → Parser
new toks = record { toks = toks; pos = 0; errors = [] }

abbrev pub peek : Parser → Option Lexed
peek p = get_elem? p.toks p.pos

-- `toks.get(pos - 1)`; at the front the position wraps around, and there is no token there.
token_before : List Lexed → ℕ → Option Lexed
token_before toks zero = none
token_before toks (suc k) = get_elem? toks k

-- The token before the position that follows. At the end it is the last one again.
unfoldable pub advance : Parser → Option Lexed × Parser
unfolding token_before
advance p =
    let p' = if is_some (peek p) then record p { pos = suc p.pos } else p in
    (token_before p'.toks p'.pos, p')

unfoldable pub error : Parser → ℕ → Bytes → Parser
error p line msg = record p {
  errors = p.errors ++ (codes "line " ++ (to_string line ++ (codes ": " ++ msg))) ∷ [];
}

line_of : Option Lexed → ℕ
line_of none = 0
line_of (some lx) = lx.line

unfoldable pub last_line : Parser → ℕ
unfolding line_of
last_line p = line_of (last? p.toks)

abbrev pub quoted : Bytes → Bytes
quoted w = codes "'" ++ (w ++ codes "'")

unfoldable pub describe : Tok → Bytes
describe (Tok.word w) = quoted w
describe Tok.opening = codes "'{'"
describe Tok.closing = codes "'}'"
describe Tok.semi = codes "';'"

expect_tok : Parser → Bytes → Lexed → Tok → Bool × Parser
unfolding advance error describe
expect_tok p ctx lx Tok.opening = (true, (advance p).1)
expect_tok p ctx lx t = (
  false,
  error p lx.line (codes "expected '{' after '" ++ (ctx ++ (codes "', found " ++ describe t))),
)

expect_lexed : Parser → Bytes → Option Lexed → Bool × Parser
unfolding expect_tok error last_line
expect_lexed p ctx (some lx) = expect_tok p ctx lx lx.tok
expect_lexed p ctx none =
    (false, error p (last_line p) (codes "expected '{' after '" ++ (ctx ++ codes "'")))

unfoldable pub expect_open : Parser → Bytes → Bool × Parser
unfolding expect_lexed
expect_open p ctx = expect_lexed p ctx (peek p)
