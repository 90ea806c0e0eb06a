-- ===== src/Config/Size/Exact.antt =====
-- `parse_size` of config/parser.rs on the texts of sizes.
use servoxide.Prelude.{
  ℕ, ◌-◌, ◌*◌, ◌≡◌, ◌<◌, ◌≤◌, ◌↔◌, refl, sym, ap, ◌∙◌, true, false, [], ◌∷◌, ◌++◌, some, any, not,
  ltb, inl, inr, Bool-cases, length, length-append, take, take-append_length, is_empty, usize_mod,
  arith,
}
use servoxide.Text.{Bytes, codes, bytes_eq, within, trim, to_lower, to_ascii_lowercase, parse_usize}
use servoxide.Text.Numerals.{IsNumeral-from_str_radix}
use servoxide.Config.Size.{
  SizeResult, scaled, without_last, is_digit, parse_suffixed, last_char, parse_size,
}
use servoxide.Config.Size.Amounts.{
  IsUnit, kilo, mega, giga, IsAmount, counted, measured, IsSize, parse_suffixed-IsSize,
}

last_char-append : (s : Bytes) (c : ℕ) → c < 128 → last_char (s ++ (c ∷ [])) ≡ c ∷ []
unfolding last_char
last_char-append [] c ascii = refl
last_char-append (x ∷ s) c ascii = rw (ends s) (last_char-append s c ascii)
  where
    ends : (s : Bytes) → any (λ b. not (within 128 191 b)) (s ++ (c ∷ [])) ≡ true
    ends [] = ground arith
    ends (x ∷ s) = elim (Bool-cases (within 128 191 x)) [
      | inl cont ↦ rw (cont, ends s) refl
      | inr start ↦ rw start refl
    ]

without_last-append : (s : Bytes) (c : ℕ) → without_last (s ++ (c ∷ [])) ≡ s
unfolding without_last
without_last-append s c =
    let len : length (s ++ (c ∷ [])) - 1 ≡ length s = omega (arith, length-append s (c ∷ [])) in
    ap (λ k. take k (s ++ (c ∷ []))) len ∙ take-append_length s (c ∷ [])

IsUnit-parse_suffixed :
    (s t : Bytes) (c unit : ℕ)
    → IsUnit c unit
    → (c < 128)
      × (parse_suffixed t (to_ascii_lowercase (c ∷ []))
          ≡ scaled t (parse_usize (trim (without_last t))) unit)
unfolding parse_suffixed codes to_ascii_lowercase to_lower bytes_eq
IsUnit-parse_suffixed s t c _ (kilo (inl e)) = (omega (arith, e), rw e refl)
IsUnit-parse_suffixed s t c _ (kilo (inr e)) = (omega (arith, e), rw e refl)
IsUnit-parse_suffixed s t c _ (mega (inl e)) = (omega (arith, e), rw e refl)
IsUnit-parse_suffixed s t c _ (mega (inr e)) = (omega (arith, e), rw e refl)
IsUnit-parse_suffixed s t c _ (giga (inl e)) = (omega (arith, e), rw e refl)
IsUnit-parse_suffixed s t c _ (giga (inr e)) = (omega (arith, e), rw e refl)

digit-parse_suffixed :
    (t : Bytes) (c : ℕ)
    → b'0' ≤ c
    → c ≤ b'9'
    → parse_suffixed t (to_ascii_lowercase (c ∷ [])) ≡ scaled t (parse_usize (trim t)) 1
unfolding parse_suffixed codes to_ascii_lowercase to_lower bytes_eq is_digit
digit-parse_suffixed t c from to = ground arith

IsAmount-parse_suffixed :
    (number text : Bytes) (unit : ℕ)
    → IsAmount number unit text
    → parse_suffixed text (to_ascii_lowercase (last_char text))
      ≡ scaled text (parse_usize (trim number)) unit
IsAmount-parse_suffixed _ _ _ (counted {c} s from to) =
    rw (last_char-append s c (omega (arith, to))) (digit-parse_suffixed (s ++ (c ∷ [])) c from to)
IsAmount-parse_suffixed _ _ _ (measured {c} {unit} {s} is) =
    let (ascii, e) = IsUnit-parse_suffixed s (s ++ (c ∷ [])) c unit is in
    rw (last_char-append s c ascii) (e ∙ rw (without_last-append s c) refl)

append-some : (s : Bytes) (c : ℕ) → is_empty (s ++ (c ∷ [])) ≡ false
append-some [] c = refl
append-some (x ∷ s) c = refl

IsAmount-some : {number text : Bytes} {unit : ℕ} → IsAmount number unit text → is_empty text ≡ false
IsAmount-some (counted {c} s from to) = append-some s c
IsAmount-some (measured {c} {s = s} is) = append-some s c

IsUnit-le : {c unit : ℕ} → IsUnit c unit → (k : ℕ) → k ≤ k * unit
IsUnit-le (kilo e) k = omega arith
IsUnit-le (mega e) k = omega arith
IsUnit-le (giga e) k = omega arith

IsAmount-le : {number text : Bytes} {unit : ℕ} → IsAmount number unit text → (k : ℕ) → k ≤ k * unit
IsAmount-le (counted s from to) k = omega arith
IsAmount-le (measured is) k = IsUnit-le is k

scaled_lem :
    (s : Bytes) (k unit : ℕ)
    → k * unit < usize_mod
    → scaled s (some k) unit ≡ SizeResult.size (k * unit)
unfolding scaled
scaled_lem s k unit below =
    let fits : ltb (k * unit) usize_mod ≡ true = ground (arith, below) in rw fits refl

IsSize-parse_suffixed :
    (s : Bytes) (n : ℕ)
    → IsSize s n
    → n < usize_mod
    → parse_suffixed s (to_ascii_lowercase (last_char s)) ≡ SizeResult.size n
unfolding parse_usize
IsSize-parse_suffixed s n i below =
    let small : i.count < usize_mod = omega (arith, IsAmount-le i.amount i.count, i.value, below) in
    IsAmount-parse_suffixed i.number s i.unit i.amount
    ∙ rw (IsNumeral-from_str_radix 9 usize_mod small i.numeral)
        (scaled_lem s i.count i.unit (rw i.value at below) ∙ ap SizeResult.size (sym i.value))

-- A text is read as a size exactly if, without white space around it, it is a decimal numeral of
-- bytes, or such a numeral, perhaps with white space behind it, and the letter k, m or g of
-- either case, for units of 2^10, 2^20 and 2^30 bytes; the size is then the product of both as
-- numbers, which is below 2^64. A numeral may have a plus sign in front.
pub parse_size-IsSize :
    (text : Bytes) (n : ℕ)
    → (parse_size text ≡ SizeResult.size n) ↔ (IsSize (trim text) n × (n < usize_mod))
unfolding parse_size
parse_size-IsSize text n = (
  λ h. elim (Bool-cases (is_empty (trim text))) [
    | inl nothing ↦ absurd (cc (rw nothing at h))
    | inr something ↦ parse_suffixed-IsSize (trim text) n (rw something at h)
  ],
  λ (i, below). rw (IsAmount-some i.amount) (IsSize-parse_suffixed (trim text) n i below),
)
