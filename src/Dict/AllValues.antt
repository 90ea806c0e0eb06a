-- ===== src/Dict/AllValues.antt =====
-- A property of all values of a dictionary, under each operation.
use servoxide.Prelude.{◌≡◌, subst, some-inj, [], ◌∷◌, some, inl, inr, Bool-cases}
use servoxide.Dict.{Dict, Eq, lookup, insert, remove, update}

abbrev pub AllValues {ℓ κ μ} : {K : Type ℓ} {V : Type κ} → (V → Type μ) → Dict K V → Type μ
AllValues P [] = Unit
AllValues P ((k, v) ∷ m) = P v × AllValues P m

module _ {ℓ κ μ} {K : Type ℓ} {V : Type κ} ⦃e : Eq K⦄ (P : V → Type μ) where
  pub lookup-AllValues : (k : K) (m : Dict K V) (v : V) → lookup k m ≡ some v → AllValues P m → P v
  unfolding lookup
  lookup-AllValues k [] v h all = absurd (cc)
  lookup-AllValues k ((j, w) ∷ m) v h (p, all) = elim (Bool-cases (e.beq j k)) [
    | inl same ↦ subst P (some-inj (rw same at h)) p
    | inr other ↦ lookup-AllValues k m v (rw other at h) all
  ]

  pub insert-AllValues :
      (k : K) (v : V) (m : Dict K V) → P v → AllValues P m → AllValues P (insert k v m)
  unfolding insert
  insert-AllValues k v [] p all = (p, tt)
  insert-AllValues k v ((j, w) ∷ m) p (q, all) = elim (Bool-cases (e.beq j k)) [
    | inl same ↦ rw same (p, all)
    | inr other ↦ rw other (q, insert-AllValues k v m p all)
  ]

  pub remove-AllValues : (k : K) (m : Dict K V) → AllValues P m → AllValues P (remove k m)
  unfolding remove
  remove-AllValues k [] all = tt
  remove-AllValues k ((j, w) ∷ m) (q, all) = elim (Bool-cases (e.beq j k)) [
    | inl same ↦ rw same (remove-AllValues k m all)
    | inr other ↦ rw other (q, remove-AllValues k m all)
  ]

  -- The value that changes is the one that a lookup finds.
  pub update-AllValues :
      (k : K) (f : V → V) (m : Dict K V)
      → ((v : V) → lookup k m ≡ some v → P v → P (f v))
      → AllValues P m
      → AllValues P (update k f m)
  unfolding update lookup
  update-AllValues k f [] keep all = tt
  update-AllValues k f ((j, w) ∷ m) keep (q, all) = elim (Bool-cases (e.beq j k)) [
    | inl same ↦ rw same (keep w (rw same) q, all)
    | inr other ↦ rw other (q, update-AllValues k f m (λ v h p. keep v (rw other h) p) all)
  ]
