-- ===== src/Config/Tokens/Words.antt =====
-- What the words of the configuration are made of (config/parser.rs).
use servoxide.Prelude.{
  ℕ, zero, suc, ◌≡◌, refl, Bool, true, false, ◌||◌, List, [], ◌∷◌, ◌++◌, ◌==◌, arith, any, All,
  if◌then◌else◌, is_empty, inl, inr, Bool-cases,
}
use servoxide.Text.{Bytes}
use servoxide.Text.Trim.{ws1, ws_front}
use servoxide.Config.Tokens.{
  Tok, Lexed, Lexer, start, flush, comment_step, push_tok, space_step, push_byte, other_step,
  code_step, lex_step, lex, tokenize,
}

-- The bytes that end a word: the special characters and the white space of one byte.
abbrev pub ends_word : ℕ → Bool
ends_word c = ws1 c || c == b'#' || c == b'{' || c == b'}' || c == b';'

-- A word is not empty and has none of them.
abbrev pub IsTok : Tok → Type 0
IsTok (Tok.word w) = (is_empty w ≡ false) × (any ends_word w ≡ false)
IsTok _ = Unit

abbrev pub IsToken : Lexed → Type 0
IsToken l = IsTok l.tok

record IsClean (st : Lexer) : Type 0 where
  out_clean : All IsToken st.out
  word_clean : any ends_word st.word ≡ false

All_snoc :
    (P : Lexed → Type 0) (xs : List Lexed) (x : Lexed) → All P xs → P x → All P (xs ++ x ∷ [])
All_snoc P [] x a p = (p, tt)
All_snoc P (y ∷ xs) x (q, a) p = (q, All_snoc P xs x a p)

any_snoc :
    (p : ℕ → Bool) (s : Bytes) (x : ℕ) → any p s ≡ false → p x ≡ false → any p (s ++ x ∷ []) ≡ false
any_snoc p [] x h g = ground (arith, g)
any_snoc p (y ∷ s) x h g = ground (arith, h, g, any_snoc p s x)

flush-IsClean : (st : Lexer) → IsClean st → IsClean (flush st)
unfolding flush
flush-IsClean st i = elim (Bool-cases (is_empty st.word)) [
  | inl empty ↦ rw empty i
  | inr full ↦ rw full (record {
    out_clean = All_snoc IsToken st.out _ i.out_clean (full, i.word_clean);
    word_clean = refl;
  })
]

push_tok-IsClean : (st : Lexer) (t : Tok) → IsTok t → IsClean st → IsClean (push_tok st t)
unfolding push_tok
push_tok-IsClean st t plain i = record {
  out_clean = All_snoc IsToken st.out _ i.out_clean plain;
  word_clean = i.word_clean;
}

comment_step-IsClean : (st : Lexer) (x : ℕ) → IsClean st → IsClean (comment_step st x)
unfolding comment_step
comment_step-IsClean st x i = elim (Bool-cases (x == b'\n')) [
  | inl newline ↦ rw newline (record { out_clean = i.out_clean; word_clean = i.word_clean })
  | inr other ↦ rw other i
]

space_step-IsClean : (st : Lexer) (x : ℕ) → IsClean st → IsClean (space_step st x)
unfolding space_step
space_step-IsClean st x i = elim (Bool-cases (x == b'\n')) [
  | inl newline ↦ rw newline (record { out_clean = i.out_clean; word_clean = i.word_clean })
  | inr other ↦ rw other i
]

ws_front-eq-zero : (x : ℕ) (xs : Bytes) → ws_front (x ∷ xs) ≡ 0 → ws1 x ≡ false
unfolding ws_front
ws_front-eq-zero x [] h = ground (arith, h)
ws_front-eq-zero x (y ∷ []) h = ground (arith, h)
ws_front-eq-zero x (y ∷ z ∷ r) h = ground (arith, h)

other_step-IsClean :
    (st : Lexer) (x : ℕ) (xs : Bytes) (k : ℕ)
    → ws_front (x ∷ xs) ≡ k
    → x == b'#' || x == b'{' || x == b'}' || x == b';' ≡ false
    → IsClean st
    → IsClean (other_step st x k).0
unfolding other_step push_byte
other_step-IsClean st x xs zero e plain i = record {
  out_clean = i.out_clean;
  word_clean =
      any_snoc ends_word st.word x i.word_clean (ground (arith, plain, ws_front-eq-zero x xs e));
}
other_step-IsClean st x xs (suc k) e plain i = space_step-IsClean (flush st) x (flush-IsClean st i)

code_step-IsClean : (st : Lexer) (x : ℕ) (xs : Bytes) → IsClean st → IsClean (code_step st x xs).0
unfolding code_step
code_step-IsClean st x xs i =
    let f = flush-IsClean st i in
    elim (Bool-cases (x == b'#')) [
      | inl hash ↦ rw hash (record { out_clean = f.out_clean; word_clean = f.word_clean })
      | inr c1 ↦ elim (Bool-cases (x == b'{')) [
        | inl brace ↦ rw (c1, brace) (push_tok-IsClean (flush st) Tok.opening tt f)
        | inr c2 ↦ elim (Bool-cases (x == b'}')) [
          | inl brace ↦ rw (c1, c2, brace) (push_tok-IsClean (flush st) Tok.closing tt f)
          | inr c3 ↦ elim (Bool-cases (x == b';')) [
            | inl semi ↦ rw (c1, c2, c3, semi) (push_tok-IsClean (flush st) Tok.semi tt f)
            | inr c4 ↦
                rw (c1, c2, c3, c4)
                  (other_step-IsClean st x xs (ws_front (x ∷ xs)) refl
                    (ground (arith, c1, c2, c3, c4)) i)
          ]
        ]
      ]
    ]

lex_step-IsClean : (st : Lexer) (x : ℕ) (xs : Bytes) → IsClean st → IsClean (lex_step st x xs).0
unfolding lex_step
lex_step-IsClean st x xs i = go st.in_comment
  where
    go : (b : Bool) → IsClean (if b then (comment_step st x, 0) else code_step st x xs).0
    go true = comment_step-IsClean st x i
    go false = code_step-IsClean st x xs i

lex-IsClean : (k : ℕ) (st : Lexer) (s : Bytes) → IsClean st → IsClean (lex k st s)
unfolding lex
lex-IsClean k st [] i = i
lex-IsClean (suc k) st (x ∷ xs) i = lex-IsClean k st xs i
lex-IsClean zero st (x ∷ xs) i =
    lex-IsClean (lex_step st x xs).1 (lex_step st x xs).0 xs (lex_step-IsClean st x xs i)

-- Each word of the configuration is not empty, and has none of #, {, } and ;, and no white space
-- of one byte.
pub tokenize-IsToken : (input : Bytes) → All IsToken (tokenize input)
unfolding tokenize
tokenize-IsToken input =
    (flush-IsClean (lex 0 start input)
      (lex-IsClean 0 start input (record { out_clean = tt; word_clean = refl }))).out_clean
