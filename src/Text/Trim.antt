-- ===== src/Text/Trim.antt =====
-- `str::trim`: the characters of Unicode's White_Space, by their UTF-8 bytes.
pub mod Laws
use servoxide.Prelude.{
  ℕ, zero, suc, Bool, true, false, ◌&&◌, ◌||◌, List, [], ◌∷◌, reverse, leb, ◌==◌, if◌then◌else◌,
  Option, none, some,
}
use servoxide.Text.Compare.{Bytes}
use servoxide.Text.Utf8.{within}

-- U+0009 to U+000D and the space.
unfoldable pub ws1 : ℕ → Bool
ws1 a = within 9 13 a || a == 32

-- U+0085 and U+00A0.
ws2 : ℕ → ℕ → Bool
ws2 a b = a == 0xC2 && (b == 0x85 || b == 0xA0)

-- U+1680, U+2000 to U+200A, U+2028, U+2029, U+202F, U+205F and U+3000.
ws3 : ℕ → ℕ → ℕ → Bool
ws3 a b c =
    (a == 0xE1 && b == 0x9A && c == 0x80)
    || (a == 0xE2 && b == 0x80 && (within 0x80 0x8A c || c == 0xA8 || c == 0xA9 || c == 0xAF))
    || (a == 0xE2 && b == 0x81 && c == 0x9F)
    || (a == 0xE3 && b == 0x80 && c == 0x80)

-- The bytes of the white space that begins here, or 0.
unfoldable pub ws_front : Bytes → ℕ
unfolding ws1 ws2 ws3
ws_front [] = 0
ws_front (a ∷ []) = if ws1 a then 1 else 0
ws_front (a ∷ b ∷ []) = if ws1 a then 1 else if ws2 a b then 2 else 0
ws_front (a ∷ b ∷ c ∷ r) = if ws1 a then 1 else if ws2 a b then 2 else if ws3 a b c then 3 else 0

-- The same in a text read backwards.
pub ws_back : Bytes → ℕ
unfolding ws1 ws2 ws3
ws_back [] = 0
ws_back (a ∷ []) = if ws1 a then 1 else 0
ws_back (b ∷ a ∷ []) = if ws1 b then 1 else if ws2 a b then 2 else 0
ws_back (c ∷ b ∷ a ∷ r) = if ws1 c then 1 else if ws2 b c then 2 else if ws3 a b c then 3 else 0

-- Drops white space from the front; the number counts bytes still to be dropped.
unfoldable pub strip : (Bytes → ℕ) → ℕ → Bytes → Bytes
strip width k [] = []
strip width (suc k) (x ∷ xs) = strip width k xs
strip width zero (x ∷ xs) = elim (width (x ∷ xs)) [ zero ↦ x ∷ xs | suc k ↦ strip width k xs ]

unfoldable pub trim_start : Bytes → Bytes
unfolding strip ws_front
trim_start = strip ws_front 0

unfoldable pub trim_end : Bytes → Bytes
unfolding strip ws_back
trim_end s = reverse (strip ws_back 0 (reverse s))

unfoldable pub trim : Bytes → Bytes
unfolding trim_start trim_end
trim s = trim_end (trim_start s)

-- What stands before the first white space.
up_to_space : Bytes → Bytes
unfolding ws_front
up_to_space [] = []
up_to_space (x ∷ xs) = let rest = up_to_space xs in if ws_front (x ∷ xs) == 0 then x ∷ rest else []

non_empty : Bytes → Option Bytes
non_empty [] = none
non_empty (x ∷ xs) = some (x ∷ xs)

-- `s.split_whitespace().next()`.
unfoldable pub first_word : Bytes → Option Bytes
unfolding up_to_space non_empty trim_start
first_word s = non_empty (up_to_space (trim_start s))
