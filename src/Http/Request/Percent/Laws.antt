-- ===== src/Http/Request/Percent/Laws.antt =====
-- Percent-encoding, in terms that do not mention the decoder of http/request.rs, and its decoding.
use servoxide.Prelude.{ℕ, ◌+◌, ◌*◌, ◌<◌, ◌≡◌, ◌≢◌, refl, ap, ◌∙◌, true, [], ◌∷◌, some, arith}
use servoxide.Text.{Bytes, well_formed}
use servoxide.Text.Numerals.{IsDigit, decimal, lower, upper}
use servoxide.Text.Utf8.Laws.{from_utf8_lossy-well_formed}
use servoxide.Http.Request.Percent.{hex_val, hex_pair, percent_bytes, percent_decode}

-- `Encodes s t`: the text `t` writes the bytes `s`, each as itself or by its two hexadecimal
-- digits, the higher one first, in either case. A `%` is always written by its digits.
pub data Encodes : Bytes → Bytes → Type 0 where
  nil : Encodes [] []
  plain : {c : ℕ} {s t : Bytes} → c ≢ b'%' → Encodes s t → Encodes (c ∷ s) (c ∷ t)
  escape :
      {a b h l : ℕ} {s t : Bytes}
      → a < 16
      → IsDigit a h
      → b < 16
      → IsDigit b l
      → Encodes s t
      → Encodes ((16 * a + b) ∷ s) (b'%' ∷ h ∷ l ∷ t)

IsDigit-hex_val : {d c : ℕ} → d < 16 → IsDigit d c → hex_val c ≡ some d
unfolding hex_val
IsDigit-hex_val small (decimal h) = ground arith
IsDigit-hex_val small (lower h) = ground arith
IsDigit-hex_val small (upper h) = ground arith

IsDigit-hex_pair :
    {a b h l : ℕ} → a < 16 → IsDigit a h → b < 16 → IsDigit b l → hex_pair h l ≡ some (16 * a + b)
unfolding hex_pair
IsDigit-hex_pair {a} {b} high_small high low_small low =
    rw (IsDigit-hex_val high_small high, IsDigit-hex_val low_small low) (ap some (omega arith))

percent_bytes-plain : (c : ℕ) (t : Bytes) → c ≢ b'%' → percent_bytes (c ∷ t) ≡ c ∷ percent_bytes t
unfolding percent_bytes
percent_bytes-plain c [] h = refl
percent_bytes-plain c (x ∷ []) h = refl
percent_bytes-plain c (x ∷ y ∷ t) h = ground arith

percent_bytes-escape :
    (h l : ℕ) (t : Bytes) {v : ℕ}
    → hex_pair h l ≡ some v
    → percent_bytes (b'%' ∷ h ∷ l ∷ t) ≡ v ∷ percent_bytes t
unfolding percent_bytes
percent_bytes-escape h l t hex = rw (hex, percent_bytes)

percent_bytes-Encodes : {s t : Bytes} → Encodes s t → percent_bytes t ≡ s
percent_bytes-Encodes nil = unfold percent_bytes in refl
percent_bytes-Encodes (plain {c} {s} {t} ne e) =
    rw (percent_bytes-plain c t ne, percent_bytes-Encodes e)
percent_bytes-Encodes (escape {a} {b} {h} {l} {s} {t} high_small high low_small low e) =
    percent_bytes-escape h l t (IsDigit-hex_pair high_small high low_small low)
    ∙ ap (◌∷◌ (16 * a + b)) (percent_bytes-Encodes e)

-- Decoding undoes every percent-encoding of a well-formed UTF-8 text, whose bytes are written as
-- themselves or by `%` and two hexadecimal digits of either case, the higher one first.
pub percent_decode-Encodes :
    {s t : Bytes} → well_formed 0 s ≡ true → Encodes s t → percent_decode t ≡ s
unfolding percent_decode
percent_decode-Encodes h e = rw (percent_bytes-Encodes e) (from_utf8_lossy-well_formed _ h)
