-- ===== src/Config/Size.antt =====
-- `parse_size` of config/parser.rs.
pub mod Amounts
pub mod Exact
use servoxide.Prelude.{
  ℕ, ◌+◌, ◌-◌, ◌*◌, Bool, true, false, ◌&&◌, not, List, [], ◌∷◌, ◌++◌, Option, none, some, any, ltb,
  leb, if◌then◌else◌, is_empty, length, take, usize_mod,
}
use servoxide.Text.{Bytes, bytes_eq, codes, trim, to_ascii_lowercase, parse_usize, within}

-- `Ok` and `Err`.
pub data SizeResult : Type 0 where
  size : ℕ → SizeResult
  error : Bytes → SizeResult

-- `s.chars().last().unwrap()`, as its bytes: all but the first are continuation bytes.
unfoldable pub last_char : Bytes → Bytes
last_char [] = []
last_char (x ∷ xs) =
    let rest = last_char xs in if any (λ b. not (within 128 191 b)) xs then rest else x ∷ xs

is_digit : Bytes → Bool
is_digit (c ∷ []) = within b'0' b'9' c
is_digit _ = false

unfoldable pub scaled : Bytes → Option ℕ → ℕ → SizeResult
scaled s none mult = SizeResult.error (codes "invalid size '" ++ (s ++ codes "'"))
scaled s (some n) mult =
    if ltb (n * mult) usize_mod
    then SizeResult.size (n * mult)
    else SizeResult.error (codes "size '" ++ (s ++ codes "' overflows"))

without_last : Bytes → Bytes
without_last s = take (length s - 1) s

unfoldable pub parse_suffixed : Bytes → Bytes → SizeResult
unfolding is_digit scaled without_last
parse_suffixed s c =
    if bytes_eq c (codes "k")
    then scaled s (parse_usize (trim (without_last s))) 1024
    else if bytes_eq c (codes "m")
    then scaled s (parse_usize (trim (without_last s))) (1024 * 1024)
    else if bytes_eq c (codes "g")
    then scaled s (parse_usize (trim (without_last s))) (1024 * 1024 * 1024)
    else if is_digit c
    then scaled s (parse_usize (trim s)) 1
    else SizeResult.error (codes "invalid size suffix '" ++ (c ++ codes "'"))

unfoldable pub parse_size : Bytes → SizeResult
unfolding parse_suffixed
parse_size text =
    let s = trim text in
    if is_empty s
    then SizeResult.error (codes "empty size value")
    else parse_suffixed s (to_ascii_lowercase (last_char s))
