-- ===== src/Http/Router/Pages/Escape.antt =====
-- `html_escape` as one pass, and what it leaves no trace of.
use servoxide.Prelude.{
  ℕ, ◌≡◌, refl, ap, ◌∙◌, sym, Bool, false, ◌||◌, [], ◌∷◌, ◌++◌, inl, inr, arith, any, ◌==◌,
  if◌then◌else◌, Bool-cases, append_assoc,
}
use servoxide.Text.{Bytes, codes}
use servoxide.Http.Router.Pages.{replace, html_escape}

-- The text that stands for a byte.
abbrev pub entity : ℕ → Bytes
unfolding codes
entity c =
    if c == b'&'
    then codes "&amp;"
    else if c == b'<'
    then codes "&lt;"
    else if c == b'>'
    then codes "&gt;"
    else if c == b'"'
    then codes "&quot;"
    else c ∷ []

unfoldable pub entities : Bytes → Bytes
unfolding entity
entities [] = []
entities (x ∷ xs) = entity x ++ entities xs

replace-append : (c : ℕ) (w s t : Bytes) → replace c w (s ++ t) ≡ replace c w s ++ replace c w t
unfolding replace
replace-append c w [] t = refl
replace-append c w (x ∷ s) t = elim (Bool-cases (x == c)) [
  | inl same ↦ rw same (rw (replace-append c w s t) (sym (append_assoc w _ _)))
  | inr differs ↦ rw differs (ap (◌∷◌ x) (replace-append c w s t))
]

html_escape-append : (s t : Bytes) → html_escape (s ++ t) ≡ html_escape s ++ html_escape t
unfolding html_escape
html_escape-append s t = simp replace-append

html_escape_byte : (c : ℕ) → html_escape (c ∷ []) ≡ entity c
unfolding html_escape entity codes
html_escape_byte c = ground arith

-- The four replacements in turn come to one pass that writes the entity of each byte: none
-- touches what another has written.
pub html_escape-entities : (s : Bytes) → html_escape s ≡ entities s
unfolding entities
html_escape-entities [] = unfold html_escape in refl
html_escape-entities (x ∷ s) =
    html_escape-append (x ∷ []) s
    ∙ ap (λ z. z ++ html_escape s) (html_escape_byte x)
    ∙ ap (λ z. entity x ++ z) (html_escape-entities s)

abbrev is_markup : ℕ → Bool
is_markup c = c == b'<' || c == b'>' || c == b'"'

any-append :
    (p : ℕ → Bool) (s t : Bytes) → any p s ≡ false → any p t ≡ false → any p (s ++ t) ≡ false
any-append p [] t h k = k
any-append p (x ∷ s) t h k = ground (arith, any-append p s t)

entity_safe : (c : ℕ) → any is_markup (entity c) ≡ false
unfolding entity codes
entity_safe c = ground arith

entities_safe : (s : Bytes) → any is_markup (entities s) ≡ false
unfolding entities
entities_safe [] = refl
entities_safe (x ∷ s) =
    any-append is_markup (entity x) (entities s) (entity_safe x) (entities_safe s)

-- No text that is escaped keeps a byte <, > or ", whatever the text is.
pub html_escape_safe :
    (s : Bytes) → any (λ c. c == b'<' || c == b'>' || c == b'"') (html_escape s) ≡ false
html_escape_safe s = rw (html_escape-entities s) (entities_safe s)
