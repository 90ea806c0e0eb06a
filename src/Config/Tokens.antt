-- ===== src/Config/Tokens.antt =====
-- The tokenizer of config/parser.rs, over the bytes of the text: the special characters are single
-- bytes, and white space of several bytes is passed over as one character.
pub mod Words
use servoxide.Prelude.{
  ℕ, zero, suc, ◌+◌, Bool, true, false, List, [], ◌∷◌, ◌++◌, ◌==◌, if◌then◌else◌, is_empty,
}
use servoxide.Text.{Bytes}
use servoxide.Text.Trim.{ws_front}

pub data Tok : Type 0 where
  word : Bytes → Tok
  opening closing semi : Tok

pub record Lexed : Type 0 where
  pub tok : Tok
  pub line : ℕ

-- The variables of the loop.
pub record Lexer : Type 0 where
  pub out : List Lexed
  pub line : ℕ
  pub word : Bytes
  pub word_line : ℕ
  pub in_comment : Bool

abbrev pub start : Lexer
start = record { out = []; line = 1; word = []; word_line = 1; in_comment = false }

-- `flush!`.
unfoldable pub flush : Lexer → Lexer
flush st = if is_empty st.word then st else record st {
  out = st.out ++ record { tok = Tok.word st.word; line = st.word_line } ∷ [];
  word = [];
}

comment_step : Lexer → ℕ → Lexer
comment_step st x = if x == b'\n' then record st { in_comment = false; line = st.line + 1 } else st

push_tok : Lexer → Tok → Lexer
push_tok st t = record st { out = st.out ++ record { tok = t; line = st.line } ∷ [] }

space_step : Lexer → ℕ → Lexer
space_step st x = if x == b'\n' then record st { line = st.line + 1 } else st

push_byte : Lexer → ℕ → Lexer
push_byte st x = record st {
  word_line = if is_empty st.word then st.line else st.word_line;
  word = st.word ++ x ∷ [];
}

-- White space of `suc k` bytes, or a byte of a word: the state, and the bytes to pass over.
other_step : Lexer → ℕ → ℕ → Lexer × ℕ
unfolding space_step push_byte flush
other_step st x zero = (push_byte st x, 0)
other_step st x (suc k) = (space_step (flush st) x, k)

-- The `match` outside a comment.
code_step : Lexer → ℕ → Bytes → Lexer × ℕ
unfolding push_tok other_step flush
code_step st x xs =
    if x == b'#'
    then (record (flush st) { in_comment = true }, 0)
    else if x == b'{'
    then (push_tok (flush st) Tok.opening, 0)
    else if x == b'}'
    then (push_tok (flush st) Tok.closing, 0)
    else if x == b';'
    then (push_tok (flush st) Tok.semi, 0)
    else other_step st x (ws_front (x ∷ xs))

unfoldable pub lex_step : Lexer → ℕ → Bytes → Lexer × ℕ
unfolding comment_step code_step
lex_step st x xs = if st.in_comment then (comment_step st x, 0) else code_step st x xs

-- The number counts bytes of the same character still to be passed over.
unfoldable pub lex : ℕ → Lexer → Bytes → Lexer
unfolding lex_step
lex k st [] = st
lex (suc k) st (x ∷ xs) = lex k st xs
lex zero st (x ∷ xs) = let (st', k) = lex_step st x xs in lex k st' xs

unfoldable pub tokenize : Bytes → List Lexed
unfolding lex flush
tokenize input = (flush (lex 0 start input)).out
