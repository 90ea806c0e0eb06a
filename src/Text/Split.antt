-- ===== src/Text/Split.antt =====
-- `str::split`, `split_once`, `to_ascii_lowercase` and `eq_ignore_ascii_case`.
use servoxide.Prelude.{
  ℕ, ◌+◌, Bool, true, false, ◌&&◌, List, [], ◌∷◌, map, leb, ◌==◌, if◌then◌else◌, Option, none, some,
  option_map,
}
use servoxide.Text.Compare.{Bytes, bytes_eq}

abbrev pub cons_head : ℕ → List Bytes → List Bytes
cons_head x [] = (x ∷ []) ∷ []
cons_head x (p ∷ ps) = (x ∷ p) ∷ ps

-- `s.split(sep)` for an ASCII character.
unfoldable pub split : ℕ → Bytes → List Bytes
split sep [] = [] ∷ []
split sep (x ∷ xs) = let rest = split sep xs in if x == sep then [] ∷ rest else cons_head x rest

-- `s.split("\r\n")`.
unfoldable pub split_crlf : Bytes → List Bytes
split_crlf [] = [] ∷ []
split_crlf (x ∷ []) = (x ∷ []) ∷ []
split_crlf (x ∷ y ∷ ys) = elim (x == b'\r' && y == b'\n') [
  | true ↦ [] ∷ split_crlf ys
  | false ↦ cons_head x (split_crlf (y ∷ ys))
]

-- `s.split_once(sep)`.
unfoldable pub split_once : ℕ → Bytes → Option (Bytes × Bytes)
split_once sep [] = none
split_once sep (x ∷ xs) =
    let rest = option_map (λ (p : Bytes × Bytes). (x ∷ p.0, p.1)) (split_once sep xs) in
    if x == sep then some ([], xs) else rest

unfoldable pub to_lower : ℕ → ℕ
to_lower c = if leb b'A' c && leb c b'Z' then c + 32 else c

unfoldable pub to_ascii_lowercase : Bytes → Bytes
unfolding to_lower
to_ascii_lowercase = map to_lower

unfoldable pub eq_ignore_ascii_case : Bytes → Bytes → Bool
unfolding to_ascii_lowercase bytes_eq
eq_ignore_ascii_case a b = bytes_eq (to_ascii_lowercase a) (to_ascii_lowercase b)
