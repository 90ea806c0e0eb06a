-- ===== src/Text/Number.antt =====
-- `from_str_radix` and `str::parse` into an unsigned integer below `limit`; `to_string` back.
use servoxide.Prelude.{
  ℕ, zero, suc, ◌+◌, ◌-◌, ◌*◌, ◌/◌, ◌%◌, true, false, [], ◌∷◌, ltb, ◌==◌, if◌then◌else◌, Option,
  none, some, usize_mod, u16_mod,
}
use servoxide.Text.Compare.{Bytes}
use servoxide.Text.Utf8.{within}

-- `char::to_digit` for a radix up to 16.
unfoldable pub to_digit : ℕ → ℕ → Option ℕ
to_digit radix c =
    let keep = λ (d : ℕ). (if ltb d radix then some d else none) in
    if within b'0' b'9' c
    then keep (c - b'0')
    else if within b'a' b'z' c
    then keep (c - b'a' + 10)
    else if within b'A' b'Z' c
    then keep (c - b'A' + 10)
    else none

-- The checked multiply and add of each digit.
unfoldable pub push_digits : ℕ → ℕ → ℕ → Bytes → Option ℕ
unfolding to_digit
push_digits radix limit acc [] = some acc
push_digits radix limit acc (c ∷ cs) = elim (to_digit radix c) [
  | none ↦ none
  | some d ↦ elim (ltb (acc * radix + d) limit) [
    | true ↦ push_digits radix limit (acc * radix + d) cs
    | false ↦ none
  ]
]

-- An empty text and a lone sign are refused; a leading `+` is allowed.
unfoldable pub from_str_radix : ℕ → ℕ → Bytes → Option ℕ
unfolding push_digits
from_str_radix radix limit [] = none
from_str_radix radix limit (c ∷ []) = push_digits radix limit 0 (c ∷ [])
from_str_radix radix limit (c ∷ d ∷ cs) =
    push_digits radix limit 0 (if c == b'+' then d ∷ cs else c ∷ d ∷ cs)

-- `s.parse::<usize>()` and `s.parse::<u16>()`.
unfoldable pub parse_usize : Bytes → Option ℕ
unfolding from_str_radix
parse_usize = from_str_radix 10 usize_mod

unfoldable pub parse_u16 : Bytes → Option ℕ
unfolding from_str_radix
parse_u16 = from_str_radix 10 u16_mod

-- The decimal digits, with one unit of fuel for each.
unfoldable pub digits_onto : ℕ → ℕ → Bytes → Bytes
digits_onto zero n out = out
digits_onto (suc f) n out =
    let rest = digits_onto f (n / 10) ((b'0' + n % 10) ∷ out) in
    if ltb n 10 then (b'0' + n) ∷ out else rest

-- `n.to_string()`.
unfoldable pub to_string : ℕ → Bytes
unfolding digits_onto
to_string n = digits_onto (suc n) n []
