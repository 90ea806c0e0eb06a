-- ===== src/Config/Parser/Fields.antt =====
-- The values that the directives of config/parser.rs put into a route.
use servoxide.Prelude.{
  ℕ, ◌≡◌, ◌<◌, refl, ap, subst, List, [], ◌∷◌, some-inj, inl, inr, Bool-cases, Option-cases,
  is_empty, u16_mod,
}
use servoxide.Text.{Bytes, bytes_eq, codes, parse_u16}
use servoxide.Config.Types.{Route}
use servoxide.Config.Parser.{Parser, error}
use servoxide.Config.Parser.Directive.{Directive}
use servoxide.Config.Parser.Route.{
  root_directive, index_directive, autoindex_directive, cgi_directive, redirect_directive,
  methods_directive, route_directive,
}
use servoxide.Config.Parser.Progress.{remaining}
use servoxide.Config.Parser.Sound.{IsRoute, parse_u16-lt}

root_directive-IsRoute :
    (r : Route) (p : Parser) (line : ℕ) (args : List Bytes)
    → IsRoute r
    → IsRoute (root_directive r p line args).0
      × (remaining (root_directive r p line args).1 ≡ remaining p)
unfolding root_directive error
root_directive-IsRoute r p line [] i = (i, refl)
root_directive-IsRoute r p line (a ∷ as') i = (i, refl)

index_directive-IsRoute :
    (r : Route) (p : Parser) (line : ℕ) (args : List Bytes)
    → IsRoute r
    → IsRoute (index_directive r p line args).0
      × (remaining (index_directive r p line args).1 ≡ remaining p)
unfolding index_directive error
index_directive-IsRoute r p line [] i = (i, refl)
index_directive-IsRoute r p line (a ∷ as') i = (i, refl)

autoindex_directive-IsRoute :
    (r : Route) (p : Parser) (line : ℕ) (args : List Bytes)
    → IsRoute r
    → IsRoute (autoindex_directive r p line args).0
      × (remaining (autoindex_directive r p line args).1 ≡ remaining p)
unfolding autoindex_directive error
autoindex_directive-IsRoute r p line [] i = (i, refl)
autoindex_directive-IsRoute r p line (a ∷ as') i = elim (Bool-cases (bytes_eq a (codes "on"))) [
  | inl on ↦ rw on (i, refl)
  | inr not_on ↦ rw not_on (elim (Bool-cases (bytes_eq a (codes "off"))) [
    | inl off ↦ rw off (i, refl)
    | inr neither ↦ rw neither (i, refl)
  ])
]

cgi_directive-IsRoute :
    (r : Route) (p : Parser) (line : ℕ) (args : List Bytes)
    → IsRoute r
    → IsRoute (cgi_directive r p line args).0
      × (remaining (cgi_directive r p line args).1 ≡ remaining p)
unfolding cgi_directive error
cgi_directive-IsRoute r p line [] i = (i, refl)
cgi_directive-IsRoute r p line (a ∷ []) i = (i, refl)
cgi_directive-IsRoute r p line (a ∷ b ∷ as') i = (i, refl)

redirect_directive-IsRoute :
    (r : Route) (p : Parser) (line : ℕ) (args : List Bytes)
    → IsRoute r
    → IsRoute (redirect_directive r p line args).0
      × (remaining (redirect_directive r p line args).1 ≡ remaining p)
unfolding redirect_directive error
redirect_directive-IsRoute r p line [] i = (i, refl)
redirect_directive-IsRoute r p line (a ∷ []) i = (i, refl)
redirect_directive-IsRoute r p line (text ∷ url ∷ rest) i = elim (Option-cases (parse_u16 text)) [
  | inl bad ↦ rw bad (i, refl)
  | inr (code, good) ↦ rw good (
    λ c u h. subst (λ n. n < u16_mod) (ap (λ q. q.0) (some-inj h)) (parse_u16-lt text code good),
    refl,
  )
]

module _ (to_uppercase : Bytes → Bytes) where
  pub route_directive-IsRoute :
      (r : Route) (p : Parser) (d : Directive)
      → IsRoute r
      → IsRoute (route_directive to_uppercase r p d).0
        × (remaining (route_directive to_uppercase r p d).1 ≡ remaining p)
  unfolding route_directive methods_directive error
  route_directive-IsRoute r p d i = elim (Bool-cases (bytes_eq d.name (codes "methods"))) [
    | inl e ↦ rw e (
      i,
      elim (Bool-cases (is_empty d.args)) [
        | inl none_there ↦ rw none_there refl
        | inr there ↦ rw there refl
      ],
    )
    | inr e ↦ rw e (elim (Bool-cases (bytes_eq d.name (codes "root"))) [
      | inl e ↦ rw e (root_directive-IsRoute r p d.line d.args i)
      | inr e ↦ rw e (elim (Bool-cases (bytes_eq d.name (codes "index"))) [
        | inl e ↦ rw e (index_directive-IsRoute r p d.line d.args i)
        | inr e ↦ rw e (elim (Bool-cases (bytes_eq d.name (codes "autoindex"))) [
          | inl e ↦ rw e (autoindex_directive-IsRoute r p d.line d.args i)
          | inr e ↦ rw e (elim (Bool-cases (bytes_eq d.name (codes "cgi"))) [
            | inl e ↦ rw e (cgi_directive-IsRoute r p d.line d.args i)
            | inr e ↦ rw e (elim (Bool-cases (bytes_eq d.name (codes "redirect"))) [
              | inl e ↦ rw e (redirect_directive-IsRoute r p d.line d.args i)
              | inr e ↦ rw e (i, refl)
            ])
          ])
        ])
      ])
    ])
  ]
