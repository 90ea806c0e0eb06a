-- ===== src/Text/Numerals.antt =====
-- Numerals by their digits and places, in terms that do not mention `from_str_radix`, and its reading
-- of them.
use servoxide.Prelude.{
  ℕ, zero, suc, ◌+◌, ◌-◌, ◌*◌, ◌≡◌, ◌≢◌, ◌≤◌, ◌<◌, refl, sym, ◌∙◌, subst, true, [], ◌∷◌, ◌++◌,
  append-nil, append_assoc, none, some, some-inj, and_then, inl, inr, Option-cases, Bool-cases,
  arith, ltb, ◌==◌, ==_iff,
}
use servoxide.Text.{Bytes, within, to_digit, push_digits, from_str_radix}

-- The character writes the digit: `0` to `9`, and then the letters of either case.
pub data IsDigit : ℕ → ℕ → Type 0 where
  decimal : {d : ℕ} → d < 10 → IsDigit d (b'0' + d)
  lower : {d : ℕ} → d < 26 → IsDigit (10 + d) (b'a' + d)
  upper : {d : ℕ} → d < 26 → IsDigit (10 + d) (b'A' + d)

-- The digits in their places: each one more makes the number `radix` times as large, and is added.
pub data Denotes (radix : ℕ) : ℕ → Bytes → Type 0 where
  nil : Denotes radix 0 []
  snoc :
      {n d c : ℕ} {s : Bytes}
      → Denotes radix n s
      → d < radix
      → IsDigit d c
      → Denotes radix (n * radix + d) (s ++ (c ∷ []))

-- There is a digit, and a `+` may stand in front.
pub data IsNumeral (radix n : ℕ) : Bytes → Type 0 where
  plain : {s : Bytes} → s ≢ [] → Denotes radix n s → IsNumeral radix n s
  signed : {s : Bytes} → s ≢ [] → Denotes radix n s → IsNumeral radix n (b'+' ∷ s)

to_digit-IsDigit : (radix c d : ℕ) → to_digit radix c ≡ some d → (d < radix) × IsDigit d c
unfolding to_digit
to_digit-IsDigit radix c d h = elim (Bool-cases (within b'0' b'9' c)) [
  | inl number ↦
      (let e : c - b'0' ≡ d = ground (arith, h, number) in
        let back : b'0' + d ≡ c = ground (arith, e, number) in
        (
          ground (arith, h, number, e),
          subst (IsDigit d) back (decimal (ground (arith, e, number))),
        ))
  | inr not_number ↦ elim (Bool-cases (within b'a' b'z' c)) [
    | inl small ↦
        (let e : 10 + (c - b'a') ≡ d = ground (arith, h, not_number, small) in
          let back : b'a' + (c - b'a') ≡ c = ground (arith, small) in
          (
            ground (arith, h, not_number, small, e),
            subst (λ d. IsDigit d c) e
                (subst (IsDigit (10 + (c - b'a'))) back (lower (ground (arith, small)))),
          ))
    | inr not_small ↦ elim (Bool-cases (within b'A' b'Z' c)) [
      | inl large ↦
          (let e : 10 + (c - b'A') ≡ d = ground (arith, h, not_number, not_small, large) in
            let back : b'A' + (c - b'A') ≡ c = ground (arith, large) in
            (
              ground (arith, h, not_number, not_small, large, e),
              subst (λ d. IsDigit d c) e
                  (subst (IsDigit (10 + (c - b'A'))) back (upper (ground (arith, large)))),
            ))
      | inr not_large ↦ absurd (cc (rw (not_number, not_small, not_large) at h))
    ]
  ]
]

IsDigit-to_digit : (radix : ℕ) {d c : ℕ} → d < radix → IsDigit d c → to_digit radix c ≡ some d
unfolding to_digit
IsDigit-to_digit radix small (decimal {d} h) = ground arith
IsDigit-to_digit radix small (lower {d} h) = ground arith
IsDigit-to_digit radix small (upper {d} h) = ground arith

push_digits-append :
    (radix limit acc : ℕ) (s t : Bytes)
    → push_digits radix limit acc (s ++ t)
      ≡ and_then (push_digits radix limit acc s) (λ n. push_digits radix limit n t)
unfolding push_digits
push_digits-append radix limit acc [] t = refl
push_digits-append radix limit acc (c ∷ s) t = elim (Option-cases (to_digit radix c)) [
  | inl bad ↦ rw (bad, push_digits) refl
  | inr (d, digit) ↦
      rw (digit, push_digits)
        (elim (Bool-cases (ltb (acc * radix + d) limit)) [
          | inl fits ↦ rw fits (push_digits-append radix limit (acc * radix + d) s t)
          | inr over ↦ rw over refl
        ])
]

push_digits-Denotes :
    (radix limit acc : ℕ) (pre s : Bytes) (n : ℕ)
    → Denotes radix acc pre
    → push_digits radix limit acc s ≡ some n
    → Denotes radix n (pre ++ s)
unfolding push_digits
push_digits-Denotes radix limit acc pre [] n all h =
    subst (Denotes radix n) (sym (append-nil pre))
      (subst (λ m. Denotes radix m pre) (some-inj h) all)
push_digits-Denotes radix limit acc pre (c ∷ s) n all h = elim (Option-cases (to_digit radix c)) [
  | inl bad ↦ absurd (cc (rw (bad, push_digits) at h))
  | inr (d, digit) ↦ elim (Bool-cases (ltb (acc * radix + d) limit)) [
    | inr over ↦ absurd (cc (rw (digit, over, push_digits) at h))
    | inl fits ↦
        (let (small, is) = to_digit-IsDigit radix c d digit in
          subst (Denotes radix n) (append_assoc pre (c ∷ []) s) (
            push_digits-Denotes radix limit (acc * radix + d) (pre ++ (c ∷ [])) s n
              (snoc all small is) (rw (digit, fits, push_digits) at h)))
  ]
]

mul_grows : (n r : ℕ) → n ≤ n * suc r
mul_grows zero r = omega arith
mul_grows (suc n) r = omega (arith, mul_grows n r)

Denotes-push_digits :
    (r limit : ℕ) {n : ℕ} {s : Bytes}
    → n < limit
    → Denotes (suc r) n s
    → push_digits (suc r) limit 0 s ≡ some n
unfolding push_digits
Denotes-push_digits r limit below nil = unfold push_digits in refl
Denotes-push_digits r limit below (snoc {n} {d} {c} {s} all small is) =
    let grows : n ≤ n * suc r + d = omega (arith, mul_grows n r) in
    let fits : ltb (n * suc r + d) limit ≡ true = ground arith in
    push_digits-append (suc r) limit 0 s (c ∷ [])
    ∙ rw (Denotes-push_digits r limit (omega (arith, grows, below)) all)
        (rw (IsDigit-to_digit (suc r) small is, fits, push_digits) refl)

pub from_str_radix-IsNumeral :
    (radix limit : ℕ) (s : Bytes) (n : ℕ)
    → from_str_radix radix limit s ≡ some n
    → IsNumeral radix n s
unfolding from_str_radix
from_str_radix-IsNumeral radix limit [] n h = absurd (cc)
from_str_radix-IsNumeral radix limit (c ∷ []) n h =
    plain (λ e. cc) (push_digits-Denotes radix limit 0 [] (c ∷ []) n nil h)
from_str_radix-IsNumeral radix limit (c ∷ d ∷ s) n h = elim (Bool-cases (c == b'+')) [
  | inl sign ↦
      subst (λ c. IsNumeral radix n (c ∷ d ∷ s)) (sym ((==_iff c b'+').0 sign))
        (signed (λ e. cc) (push_digits-Denotes radix limit 0 [] (d ∷ s) n nil (rw sign at h)))
  | inr digit ↦
      plain (λ e. cc) (push_digits-Denotes radix limit 0 [] (c ∷ d ∷ s) n nil (rw digit at h))
]

plus_is_none : (r limit : ℕ) (s : Bytes) → push_digits (suc r) limit 0 (b'+' ∷ s) ≡ none
unfolding push_digits to_digit
plus_is_none r limit s = refl

pub IsNumeral-from_str_radix :
    (r limit : ℕ) {n : ℕ} {s : Bytes}
    → n < limit
    → IsNumeral (suc r) n s
    → from_str_radix (suc r) limit s ≡ some n
unfolding from_str_radix
IsNumeral-from_str_radix r limit below (plain {s = []} some_digit all) = absurd (some_digit refl)
IsNumeral-from_str_radix r limit below (plain {s = c ∷ []} some_digit all) =
    Denotes-push_digits r limit below all
IsNumeral-from_str_radix r limit below (plain {s = c ∷ d ∷ s} some_digit all) =
    let read = Denotes-push_digits r limit below all in
    elim (Bool-cases (c == b'+')) [
      | inl sign ↦ absurd (cc (read, plus_is_none r limit (d ∷ s), (==_iff c b'+').0 sign))
      | inr digit ↦ rw digit read
    ]
IsNumeral-from_str_radix r limit below (signed {s = []} some_digit all) = absurd (some_digit refl)
IsNumeral-from_str_radix r limit below (signed {s = d ∷ s} some_digit all) =
    Denotes-push_digits r limit below all
