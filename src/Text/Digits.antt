-- ===== src/Text/Digits.antt =====
-- A number that is read is below its limit.
use servoxide.Prelude.{
  ℕ, ◌+◌, ◌*◌, ◌≡◌, ◌<◌, inl, inr, [], ◌∷◌, some, arith, Option-cases, ◌==◌, if◌then◌else◌,
}
use servoxide.Text.{Bytes, push_digits, from_str_radix, to_digit}

push_digits-lt :
    (radix limit acc : ℕ) (s : Bytes) (n : ℕ)
    → acc < limit
    → push_digits radix limit acc s ≡ some n
    → n < limit
unfolding push_digits
push_digits-lt radix limit acc [] n h e = ground arith
push_digits-lt radix limit acc (c ∷ s) n h e = elim (Option-cases (to_digit radix c)) [
  | inl bad ↦ absurd (ground arith)
  | inr (d, digit) ↦ ground (arith, push_digits-lt radix limit (acc * radix + d) s n)
]

pub from_str_radix-lt :
    (radix limit : ℕ) (s : Bytes) (n : ℕ)
    → 0 < limit
    → from_str_radix radix limit s ≡ some n
    → n < limit
unfolding from_str_radix
from_str_radix-lt radix limit [] n h e = cc
from_str_radix-lt radix limit (c ∷ []) n h e = push_digits-lt radix limit 0 (c ∷ []) n h e
from_str_radix-lt radix limit (c ∷ d ∷ s) n h e =
    push_digits-lt radix limit 0 (if c == b'+' then d ∷ s else c ∷ d ∷ s) n h e
