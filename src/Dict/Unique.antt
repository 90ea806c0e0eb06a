-- ===== src/Dict/Unique.antt =====
-- No key occurs twice in a dictionary, and what each operation leaves under a key.
use servoxide.Prelude.{
  ◌≡◌, refl, subst, ◌∙◌, false, [], ◌∷◌, none, arith, inl, inr, Bool-cases, if◌then◌else◌,
}
use servoxide.Dict.{
  Dict, Eq, lookup, insert, remove, update, lookup-insert, lookup-update, beq_self,
}

abbrev pub Unique {ℓ κ} : {K : Type ℓ} {V : Type κ} → ⦃e : Eq K⦄ → Dict K V → Type (ℓ ⊔ κ)
Unique [] = Unit
Unique ((k, v) ∷ m) = (lookup k m ≡ none) × Unique m

beq-false {ℓ} : {K : Type ℓ} ⦃e : Eq K⦄ (j k : K) → e.beq j k ≡ false → e.beq k j ≡ false
beq-false ⦃e⦄ j k other = ground (arith, other, e.beq_iff j k, e.beq_iff k j)

module _ {ℓ κ} {K : Type ℓ} {V : Type κ} ⦃e : Eq K⦄ where
  pub lookup-remove :
      (k j : K) (m : Dict K V) → lookup j (remove k m) ≡ (if e.beq k j then none else lookup j m)
  unfolding lookup remove
  lookup-remove k j [] = ground arith
  lookup-remove k j ((i, w) ∷ m) =
      ground (arith, e.beq_iff k j, e.beq_iff i k, e.beq_iff i j, lookup-remove k j m)

  pub insert-Unique : (k : K) (v : V) (m : Dict K V) → Unique m → Unique (insert k v m)
  unfolding insert lookup
  insert-Unique k v [] u = (refl, tt)
  insert-Unique k v ((j, w) ∷ m) (new, u) = elim (Bool-cases (e.beq j k)) [
    | inl same ↦ rw same (subst (λ i. lookup i m ≡ none) ((e.beq_iff j k).0 same) new, u)
    | inr other ↦
        rw other (lookup-insert k j v m ∙ rw (beq-false j k other) new, insert-Unique k v m u)
  ]

  pub remove-Unique : (k : K) (m : Dict K V) → Unique m → Unique (remove k m)
  unfolding remove
  remove-Unique k [] u = tt
  remove-Unique k ((j, w) ∷ m) (new, u) = elim (Bool-cases (e.beq j k)) [
    | inl same ↦ rw same (remove-Unique k m u)
    | inr other ↦ rw other (lookup-remove k j m ∙ rw (beq-false j k other) new, remove-Unique k m u)
  ]

  pub update-Unique : (k : K) (f : V → V) (m : Dict K V) → Unique m → Unique (update k f m)
  unfolding update
  update-Unique k f [] u = tt
  update-Unique k f ((j, w) ∷ m) (new, u) = elim (Bool-cases (e.beq j k)) [
    | inl same ↦ rw same (new, u)
    | inr other ↦
        rw other (lookup-update k j f m ∙ rw (beq-false j k other) new, update-Unique k f m u)
  ]

  pub lookup-update_other :
      (k j : K) (f : V → V) (m : Dict K V)
      → e.beq k j ≡ false
      → lookup j (update k f m) ≡ lookup j m
  lookup-update_other k j f m other = lookup-update k j f m ∙ rw other refl

  pub lookup-update_missing :
      (k : K) (f : V → V) (m : Dict K V) → lookup k m ≡ none → lookup k (update k f m) ≡ none
  lookup-update_missing k f m gone = lookup-update k k f m ∙ rw (beq_self k, gone) refl
