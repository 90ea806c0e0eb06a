-- ===== src/Config/Parser/Route.antt =====
-- `parse_route_directive` of config/parser.rs.
use servoxide.Prelude.{
  ℕ, true, false, List, [], ◌∷◌, ◌++◌, map, Option, none, some, is_empty, if◌then◌else◌, Outcome,
  returns, ◌>>=◌,
}
use servoxide.Text.{Bytes, bytes_eq, codes, parse_u16}
use servoxide.Dict.{insert, nat_eq, text_eq}
use servoxide.Config.Types.{Route}
use servoxide.Config.Parser.{Parser, error, quoted}
use servoxide.Config.Parser.Directive.{Directive, read_directive}

-- `args.first()` is a path, or another text.
unfoldable pub root_directive : Route → Parser → ℕ → List Bytes → Route × Parser
unfolding error
root_directive r p line (a ∷ as') = (record r { root = some a }, p)
root_directive r p line [] = (r, error p line (codes "'root' requires a path"))

unfoldable pub index_directive : Route → Parser → ℕ → List Bytes → Route × Parser
unfolding error
index_directive r p line (a ∷ as') = (record r { index = some a }, p)
index_directive r p line [] = (r, error p line (codes "'index' requires a filename"))

unfoldable pub autoindex_directive : Route → Parser → ℕ → List Bytes → Route × Parser
unfolding error
autoindex_directive r p line [] = (r, error p line (codes "'autoindex' must be 'on' or 'off'"))
autoindex_directive r p line (a ∷ as') =
    if bytes_eq a (codes "on")
    then (record r { autoindex = true }, p)
    else if bytes_eq a (codes "off")
    then (record r { autoindex = false }, p)
    else (r, error p line (codes "'autoindex' must be 'on' or 'off'"))

unfoldable pub cgi_directive : Route → Parser → ℕ → List Bytes → Route × Parser
unfolding error
cgi_directive r p line (ext ∷ interpreter ∷ rest) =
    (record r { cgi = insert ext interpreter r.cgi }, p)
cgi_directive r p line _ =
    (r, error p line (codes "'cgi' requires an extension and an interpreter"))

set_redirect : Route → Parser → ℕ → Bytes → Bytes → Option ℕ → Route × Parser
unfolding error
set_redirect r p line text url (some code) = (record r { redirect = some (code, url) }, p)
set_redirect r p line text url none =
    (r, error p line (codes "invalid redirect code " ++ quoted text))

unfoldable pub redirect_directive : Route → Parser → ℕ → List Bytes → Route × Parser
unfolding set_redirect error parse_u16
redirect_directive r p line (text ∷ url ∷ rest) = set_redirect r p line text url (parse_u16 text)
redirect_directive r p line _ = (r, error p line (codes "'redirect' requires a code and a URL"))

-- `str::to_uppercase` maps every character by Unicode's tables, which are no part of the program.
module _ (to_uppercase : Bytes → Bytes) where
  unfoldable pub methods_directive : Route → Parser → ℕ → List Bytes → Route × Parser
  unfolding error
  methods_directive r p line args = (
    record r { methods = map to_uppercase args },
    if is_empty args then error p line (codes "'methods' requires at least one method") else p,
  )

  unfoldable pub route_directive : Route → Parser → Directive → Route × Parser
  unfolding methods_directive root_directive index_directive autoindex_directive cgi_directive
      redirect_directive error
  route_directive r p d =
      if bytes_eq d.name (codes "methods")
      then methods_directive r p d.line d.args
      else if bytes_eq d.name (codes "root")
      then root_directive r p d.line d.args
      else if bytes_eq d.name (codes "index")
      then index_directive r p d.line d.args
      else if bytes_eq d.name (codes "autoindex")
      then autoindex_directive r p d.line d.args
      else if bytes_eq d.name (codes "cgi")
      then cgi_directive r p d.line d.args
      else if bytes_eq d.name (codes "redirect")
      then redirect_directive r p d.line d.args
      else (r, error p d.line (codes "unknown route directive " ++ quoted d.name))

  unfoldable pub parse_route_directive : ℕ → Parser → Route → Outcome (Route × Parser)
  unfolding read_directive route_directive
  parse_route_directive fuel p r = read_directive fuel p >>= λ (d, p'). elim d [
    | none ↦ returns (r, p')
    | some d' ↦ returns (route_directive r p' d')
  ]
