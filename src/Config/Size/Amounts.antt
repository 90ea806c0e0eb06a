-- ===== src/Config/Size/Amounts.antt =====
-- The texts of sizes and their values, in terms that do not mention `parse_size` (config/parser.rs),
-- and what it takes for one.
use servoxide.Prelude.{
  ℕ, ◌+◌, ◌-◌, ◌*◌, ◌^◌, ◌≡◌, ◌<◌, ◌≤◌, refl, sym, ap, ◌∙◌, subst, true, [], ◌∷◌, ◌++◌, Option,
  none, some, any, not, ltb, inl, inr, ◌⊎◌, Bool-cases, length, length-append, take,
  take-append_length, usize_mod, arith,
}
use servoxide.Text.{
  Bytes, codes, bytes_eq, bytes_eq_iff, within, trim, to_lower, to_ascii_lowercase, parse_usize,
}
use servoxide.Text.Numerals.{IsNumeral, from_str_radix-IsNumeral}
use servoxide.Config.Size.{SizeResult, scaled, without_last, is_digit, parse_suffixed, last_char}

-- The letter stands for so many bytes.
pub data IsUnit (c : ℕ) : ℕ → Type 0 where
  kilo : (c ≡ b'k') ⊎ (c ≡ b'K') → IsUnit c (2 ^ 10)
  mega : (c ≡ b'm') ⊎ (c ≡ b'M') → IsUnit c (2 ^ 20)
  giga : (c ≡ b'g') ⊎ (c ≡ b'G') → IsUnit c (2 ^ 30)

-- The text is a number with a unit behind it, or ends in a digit and is a number of bytes.
pub data IsAmount : Bytes → ℕ → Bytes → Type 0 where
  counted : {c : ℕ} (s : Bytes) → b'0' ≤ c → c ≤ b'9' → IsAmount (s ++ (c ∷ [])) 1 (s ++ (c ∷ []))
  measured : {c unit : ℕ} {s : Bytes} → IsUnit c unit → IsAmount s unit (s ++ (c ∷ []))

-- The value of the text of a size, without white space around it.
pub record IsSize (text : Bytes) (n : ℕ) : Type 0 where
  pub number : Bytes
  pub unit : ℕ
  pub count : ℕ
  pub amount : IsAmount number unit text
  pub numeral : IsNumeral 10 count (trim number)
  pub value : n ≡ count * unit

last_char-split : (s : Bytes) → (pre : Bytes) × (s ≡ pre ++ last_char s)
unfolding last_char
last_char-split [] = ([], refl)
last_char-split (x ∷ s) = elim (Bool-cases (any (λ b. not (within 128 191 b)) s)) [
  | inl more ↦ (let (pre, e) = last_char-split s in (x ∷ pre, rw more (ap (◌∷◌ x) e)))
  | inr last ↦ ([], rw last refl)
]

split_last : (s : Bytes) (c : ℕ) → last_char s ≡ c ∷ [] → s ≡ without_last s ++ (c ∷ [])
unfolding without_last
split_last s c last =
    let (pre, e) = last_char-split s in
    let e' : s ≡ pre ++ (c ∷ []) = e ∙ ap (λ t. pre ++ t) last in
    let len : length s - 1 ≡ length pre = omega (arith, ap length e', length-append pre (c ∷ [])) in
    let front : take (length pre) s ≡ pre =
      ap (take (length pre)) e' ∙ take-append_length pre (c ∷ []) in
    e' ∙ ap (λ t. t ++ (c ∷ [])) (sym (ap (λ k. take k s) len ∙ front))

scaled-size :
    (s : Bytes) (o : Option ℕ) (unit n : ℕ)
    → scaled s o unit ≡ SizeResult.size n
    → (k : ℕ) × (o ≡ some k) × (n ≡ k * unit) × (n < usize_mod)
unfolding scaled
scaled-size s none unit n h = absurd (cc)
scaled-size s (some k) unit n h = elim (Bool-cases (ltb (k * unit) usize_mod)) [
  | inl fits ↦ (let e : n ≡ k * unit = cc (rw fits at h) in (k, refl, e, ground (arith, fits, e)))
  | inr over ↦ absurd (cc (rw over at h))
]

to_lower-cases : (c l : ℕ) → b'a' ≤ l → l ≤ b'z' → to_lower c ≡ l → (c ≡ l) ⊎ (c + 32 ≡ l)
unfolding to_lower
to_lower-cases c l from to h = ground arith

one_char :
    (t : Bytes) (l : ℕ) → to_ascii_lowercase t ≡ l ∷ [] → (c : ℕ) × (t ≡ c ∷ []) × (to_lower c ≡ l)
unfolding to_ascii_lowercase
one_char [] l h = absurd (cc)
one_char (c ∷ []) l h = (c, refl, cc)
one_char (c ∷ d ∷ t) l h = absurd (cc)

measured-IsSize :
    (s : Bytes) (l unit n : ℕ)
    → ((c : ℕ) → to_lower c ≡ l → IsUnit c unit)
    → bytes_eq (to_ascii_lowercase (last_char s)) (l ∷ []) ≡ true
    → scaled s (parse_usize (trim (without_last s))) unit ≡ SizeResult.size n
    → IsSize s n × (n < usize_mod)
unfolding parse_usize
measured-IsSize s l unit n is_unit same h =
    let (c, last, lowers) = one_char (last_char s) l ((bytes_eq_iff _ _).0 same) in
    let (k, read, value, below) = scaled-size s (parse_usize (trim (without_last s))) unit n h in
    (
      record {
        number = without_last s;
        unit = unit;
        count = k;
        amount =
            subst (IsAmount (without_last s) unit) (sym (split_last s c last))
              (measured (is_unit c lowers));
        numeral = from_str_radix-IsNumeral 10 usize_mod (trim (without_last s)) k read;
        value = value;
      },
      below,
    )

to_lower-IsUnit_k : (c : ℕ) → to_lower c ≡ b'k' → IsUnit c (2 ^ 10)
to_lower-IsUnit_k c h = kilo (ground (arith, to_lower-cases c b'k' (omega arith) (omega arith) h))

to_lower-IsUnit_m : (c : ℕ) → to_lower c ≡ b'm' → IsUnit c (2 ^ 20)
to_lower-IsUnit_m c h = mega (ground (arith, to_lower-cases c b'm' (omega arith) (omega arith) h))

to_lower-IsUnit_g : (c : ℕ) → to_lower c ≡ b'g' → IsUnit c (2 ^ 30)
to_lower-IsUnit_g c h = giga (ground (arith, to_lower-cases c b'g' (omega arith) (omega arith) h))

is_digit-last :
    (t : Bytes)
    → is_digit (to_ascii_lowercase t) ≡ true
    → (c : ℕ) × (t ≡ c ∷ []) × (b'0' ≤ c) × (c ≤ b'9')
unfolding is_digit to_ascii_lowercase to_lower
is_digit-last [] h = absurd (cc)
is_digit-last (c ∷ []) h = (c, refl, ground (arith, h), ground (arith, h))
is_digit-last (c ∷ d ∷ t) h = absurd (cc)

counted-IsSize :
    (s : Bytes) (n : ℕ)
    → is_digit (to_ascii_lowercase (last_char s)) ≡ true
    → scaled s (parse_usize (trim s)) 1 ≡ SizeResult.size n
    → IsSize s n × (n < usize_mod)
unfolding parse_usize
counted-IsSize s n digit h =
    let (c, last, from, to) = is_digit-last (last_char s) digit in
    let (k, read, value, below) = scaled-size s (parse_usize (trim s)) 1 n h in
    let split = sym (split_last s c last) in
    (
      record {
        number = s;
        unit = 1;
        count = k;
        amount = subst (λ t. IsAmount t 1 t) split (counted (without_last s) from to);
        numeral = from_str_radix-IsNumeral 10 usize_mod (trim s) k read;
        value = value;
      },
      below,
    )

pub parse_suffixed-IsSize :
    (s : Bytes) (n : ℕ)
    → parse_suffixed s (to_ascii_lowercase (last_char s)) ≡ SizeResult.size n
    → IsSize s n × (n < usize_mod)
unfolding parse_suffixed codes
parse_suffixed-IsSize s n h =
    let c = to_ascii_lowercase (last_char s) in
    elim (Bool-cases (bytes_eq c (codes "k"))) [
      | inl k ↦ measured-IsSize s b'k' (2 ^ 10) n to_lower-IsUnit_k k (rw k at h)
      | inr not_k ↦ elim (Bool-cases (bytes_eq c (codes "m"))) [
        | inl m ↦ measured-IsSize s b'm' (2 ^ 20) n to_lower-IsUnit_m m (rw (not_k, m) at h)
        | inr not_m ↦ elim (Bool-cases (bytes_eq c (codes "g"))) [
          | inl g ↦
              measured-IsSize s b'g' (2 ^ 30) n to_lower-IsUnit_g g (rw (not_k, not_m, g) at h)
          | inr not_g ↦ elim (Bool-cases (is_digit c)) [
            | inl digit ↦ counted-IsSize s n digit (rw (not_k, not_m, not_g, digit) at h)
            | inr other ↦ absurd (cc (rw (not_k, not_m, not_g, other) at h))
          ]
        ]
      ]
    ]
