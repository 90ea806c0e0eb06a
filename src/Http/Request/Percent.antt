-- ===== src/Http/Request/Percent.antt =====
-- `percent_decode` and `hex_val` of http/request.rs.
pub mod Laws
use servoxide.Prelude.{
  ℕ, ◌+◌, ◌-◌, ◌*◌, true, false, List, [], ◌∷◌, Option, none, some, ◌==◌, if◌then◌else◌, option_map,
  and_then,
}
use servoxide.Text.{Bytes, within, from_utf8_lossy}

unfoldable pub hex_val : ℕ → Option ℕ
hex_val c =
    if within b'0' b'9' c
    then some (c - b'0')
    else if within b'a' b'f' c
    then some (c - b'a' + 10)
    else if within b'A' b'F' c
    then some (c - b'A' + 10)
    else none

-- `Some(h * 16 + l)` if both are digits.
unfoldable pub hex_pair : ℕ → ℕ → Option ℕ
unfolding hex_val
hex_pair h l = and_then (hex_val h) λ a. option_map (λ b. a * 16 + b) (hex_val l)

-- The loop: an escape needs two bytes behind the `%`, and what is no escape is passed through.
unfoldable pub percent_bytes : Bytes → Bytes
percent_bytes [] = []
percent_bytes (c ∷ []) = c ∷ []
percent_bytes (c ∷ h ∷ []) = c ∷ h ∷ []
percent_bytes (c ∷ h ∷ l ∷ rest) = elim (c == b'%') [
  | false ↦ c ∷ percent_bytes (h ∷ l ∷ rest)
  | true ↦ elim (hex_pair h l) [
    | none ↦ c ∷ percent_bytes (h ∷ l ∷ rest)
    | some v ↦ v ∷ percent_bytes rest
  ]
]

unfoldable pub percent_decode : Bytes → Bytes
unfolding percent_bytes hex_pair
percent_decode s = from_utf8_lossy (percent_bytes s)
