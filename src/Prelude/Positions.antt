-- ===== src/Prelude/Positions.antt =====
-- Lists by their positions.
use Prim.Native.Nat.{ℕ, zero, suc, ◌<◌}
use mathlib.Core.Path.{◌≡◌, refl, sym, ap}
use mathlib.Core.Logic.{◌⊎◌, inl, inr}
use mathlib.Core.List.{List, [], ◌∷◌, ◌++◌}
use mathlib.Core.Option.{some}
use native.Mathlib.Omega.{arith}
use servoxide.Prelude.Tests.{some-inj}
use servoxide.Prelude.Lists.{length, get_elem?, All}

-- The last element of a list that grew by one.
module _ {ℓ} {A : Type ℓ} where
  pub get_elem?-append_one :
      (xs : List A) (y : A) (i : ℕ) (x : A)
      → get_elem? (xs ++ y ∷ []) i ≡ some x
      → (get_elem? xs i ≡ some x) ⊎ ((i ≡ length xs) × (x ≡ y))
  get_elem?-append_one [] y zero x h = inr (refl, sym (some-inj h))
  get_elem?-append_one [] y (suc i) x h = absurd (cc)
  get_elem?-append_one (z ∷ xs) y zero x h = inl h
  get_elem?-append_one (z ∷ xs) y (suc i) x h = elim (get_elem?-append_one xs y i x h) [
    | inl old ↦ inl old
    | inr (last, same) ↦ inr (ap suc last, same)
  ]

  pub get_elem?-append_left :
      (xs ys : List A) (i : ℕ) (x : A) → get_elem? xs i ≡ some x → get_elem? (xs ++ ys) i ≡ some x
  get_elem?-append_left [] ys i x h = absurd (cc)
  get_elem?-append_left (z ∷ xs) ys zero x h = h
  get_elem?-append_left (z ∷ xs) ys (suc i) x h = get_elem?-append_left xs ys i x h

  pub get_elem?-append_length :
      (xs : List A) (y : A) (ys : List A) → get_elem? (xs ++ y ∷ ys) (length xs) ≡ some y
  get_elem?-append_length [] y ys = refl
  get_elem?-append_length (x ∷ xs) y ys = get_elem?-append_length xs y ys

  pub get_elem?-lt_length : (xs : List A) (i : ℕ) (x : A) → get_elem? xs i ≡ some x → i < length xs
  get_elem?-lt_length [] i x h = absurd (cc)
  get_elem?-lt_length (z ∷ xs) zero x h = omega arith
  get_elem?-lt_length (z ∷ xs) (suc i) x h = omega (arith, get_elem?-lt_length xs i x h)

  pub All-get_elem? {κ} :
      (P : A → Type κ) (xs : List A) → ((i : ℕ) (x : A) → get_elem? xs i ≡ some x → P x) → All P xs
  All-get_elem? P [] h = tt
  All-get_elem? P (x ∷ xs) h = (h zero x refl, All-get_elem? P xs (λ i. h (suc i)))
