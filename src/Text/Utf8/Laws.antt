-- ===== src/Text/Utf8/Laws.antt =====
-- Well-formed text is left as it is.
use servoxide.Prelude.{ℕ, zero, suc, ◌≡◌, refl, ap, true, [], ◌∷◌}
use servoxide.Text.Compare.{Bytes}
use servoxide.Text.Utf8.{Scan, valid, invalid, scan, well_formed, lossy, from_utf8_lossy}

lossy-well_formed : (k : ℕ) (s : Bytes) → well_formed k s ≡ true → lossy true k s ≡ s
unfolding well_formed lossy
lossy-well_formed k [] h = refl
lossy-well_formed (suc k) (x ∷ s) h = ap (◌∷◌ x) (lossy-well_formed k s h)
lossy-well_formed zero (x ∷ s) h = go (scan x s) refl (λ k. lossy-well_formed k s)
  where
    go :
        (r : Scan)
        → scan x s ≡ r
        → ((k : ℕ) → well_formed k s ≡ true → lossy true k s ≡ s)
        → lossy true zero (x ∷ s) ≡ x ∷ s
    go (valid k) e ih = rw (e, lossy) (ap (◌∷◌ x) (ih k (rw (e, well_formed) at h)))
    go (invalid k) e ih = cc (rw (e, well_formed) at h)

pub from_utf8_lossy-well_formed : (s : Bytes) → well_formed 0 s ≡ true → from_utf8_lossy s ≡ s
unfolding from_utf8_lossy
from_utf8_lossy-well_formed s h = lossy-well_formed 0 s h
