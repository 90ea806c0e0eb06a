-- ===== src/Http/Router/Match/Traversal.antt =====
-- The traversal check of http/router.rs.
use servoxide.Prelude.{
  ◌≡◌, refl, ap, ◌∙◌, Bool, true, false, ◌||◌, List, [], ◌∷◌, any, inl, inr, Bool-cases, is_empty,
}
use servoxide.Text.{Bytes, codes, bytes_eq, bytes_eq_iff, split, starts_with}
use servoxide.Http.Router.Paths.{Component, components, component, pieces, front}
use servoxide.Http.Router.Match.{has_traversal, escapes}

abbrev is_up : Bytes → Bool
is_up p = bytes_eq p (codes "..")

dot_down : (p : Bytes) → bytes_eq p (codes ".") ≡ true → is_up p ≡ false
unfolding bytes_eq codes
dot_down p dot = ap (λ q. bytes_eq q (codes "..")) ((bytes_eq_iff p (codes ".")).0 dot)

skip_down : (p : Bytes) → is_empty p || bytes_eq p (codes ".") ≡ true → is_up p ≡ false
unfolding bytes_eq codes
skip_down [] h = refl
skip_down (x ∷ p) h = dot_down (x ∷ p) h

component_up :
    (p : Bytes) (cs : List Component) → any escapes (component p cs) ≡ (is_up p || any escapes cs)
unfolding component escapes
component_up p cs = elim (Bool-cases (is_empty p || bytes_eq p (codes "."))) [
  | inl skip ↦ rw (skip, skip_down p skip) refl
  | inr kept ↦ elim (Bool-cases (is_up p)) [
    | inl up ↦ rw (kept, up) refl
    | inr down ↦ rw (kept, down) refl
  ]
]

pieces_up : (ps : List Bytes) → any escapes (pieces ps) ≡ any is_up ps
unfolding pieces
pieces_up [] = refl
pieces_up (p ∷ ps) = component_up p (pieces ps) ∙ ap (λ b. is_up p || b) (pieces_up ps)

front_up : (ps : List Bytes) → any escapes (front ps) ≡ any is_up ps
unfolding front escapes
front_up [] = refl
front_up (p ∷ ps) = elim (Bool-cases (bytes_eq p (codes "."))) [
  | inl dot ↦ rw (dot, dot_down p dot) (pieces_up ps)
  | inr other ↦ rw other (component_up p (pieces ps) ∙ ap (λ b. is_up p || b) (pieces_up ps))
]

-- The traversal check refuses exactly the paths that begin at the root or have a piece "..".
pub has_traversal-pieces :
    (rel : Bytes)
    → has_traversal rel
      ≡ (starts_with (codes "/") rel || any (λ p. bytes_eq p (codes "..")) (split b'/' rel))
unfolding has_traversal components escapes
has_traversal-pieces rel = elim (Bool-cases (starts_with (codes "/") rel)) [
  | inl root ↦ rw root refl
  | inr local ↦ rw local (front_up (split b'/' rel))
]
