-- ===== src/Text/Trim/Laws.antt =====
-- Trimming keeps a part of the text.
use servoxide.Prelude.{ℕ, zero, suc, ◌≡◌, refl, Bool, false, [], ◌∷◌, ◌++◌, arith, any, reverse}
use servoxide.Text.Compare.{Bytes}
use servoxide.Text.Trim.{strip, trim, trim_start, trim_end, ws_back, ws_front}
use mathlib.Core.List.{reverse-cons}

module _ (p : ℕ → Bool) where
  any-append : (s t : Bytes) → any p s ≡ false → any p t ≡ false → any p (s ++ t) ≡ false
  any-append [] t h k = k
  any-append (x ∷ s) t h k = ground (arith, any-append s t)

  any-reverse : (s : Bytes) → any p s ≡ false → any p (reverse s) ≡ false
  any-reverse [] h = refl
  any-reverse (x ∷ s) h =
      rw (reverse-cons x s)
        (any-append (reverse s) (x ∷ []) (any-reverse s (ground arith)) (ground arith))

  any-strip :
      (width : Bytes → ℕ) (k : ℕ) (s : Bytes) → any p s ≡ false → any p (strip width k s) ≡ false
  unfolding strip
  any-strip width k [] h = refl
  any-strip width (suc k) (x ∷ s) h = any-strip width k s (ground arith)
  any-strip width zero (x ∷ s) h = go (width (x ∷ s)) refl (λ k. any-strip width k s (ground arith))
    where
      go :
          (n : ℕ)
          → width (x ∷ s) ≡ n
          → ((k : ℕ) → any p (strip width k s) ≡ false)
          → any p (strip width zero (x ∷ s)) ≡ false
      go zero e ih = rw (e, strip) h
      go (suc k) e ih = rw (e, strip) (ih k)

  -- A byte that a text does not have is not in the trimmed text.
  pub any-trim : (s : Bytes) → any p s ≡ false → any p (trim s) ≡ false
  unfolding trim trim_start trim_end
  any-trim s h = any-reverse _ (any-strip ws_back 0 _ (any-reverse _ (any-strip ws_front 0 s h)))
