-- ===== src/Http/Router/Match.antt =====
-- Route selection and the checks before any file is touched (http/router.rs).
pub mod Longest
pub mod Traversal
use servoxide.Prelude.{
  ℕ, Bool, true, false, ◌&&◌, ◌||◌, List, [], ◌∷◌, ◌++◌, Option, none, some, ltb, ◌==◌, min,
  if◌then◌else◌, any, drop, length, is_empty,
}
use servoxide.Text.{Bytes, bytes_eq, codes, starts_with}
use servoxide.Config.Types.{Route, ServerConfig}
use servoxide.Http.Request.Types.{Request}
use servoxide.Http.Router.Paths.{Component, root_dir, cur_dir, parent_dir, normal, components}

unfoldable pub route_matches : Bytes → Bytes → Bool
route_matches route_path req_path =
    if bytes_eq route_path (codes "/")
    then true
    else bytes_eq req_path route_path || starts_with (route_path ++ codes "/") req_path

-- `best.map_or(true, |b| r.path.len() > b.path.len())`.
longer : Option Route → Route → Bool
longer none r = true
longer (some b) r = ltb (length b.path) (length r.path)

unfoldable pub best_loop : Bytes → Option Route → List Route → Option Route
unfolding longer
best_loop req_path best [] = best
best_loop req_path best (r ∷ rs) =
    best_loop req_path (if route_matches r.path req_path && longer best r then some r else best) rs

unfoldable pub best_route : Request → ServerConfig → Option Route
unfolding best_loop
best_route req server = best_loop req.path none server.routes

-- The methods the server implements.
unfoldable pub implemented : List Bytes
implemented = codes "GET" ∷ codes "POST" ∷ codes "DELETE" ∷ []

unfoldable pub allowed_methods : Route → List Bytes
unfolding implemented
allowed_methods route = if is_empty route.methods then implemented else route.methods

unfoldable pub method_allowed : Route → Bytes → Bool
unfolding allowed_methods
method_allowed route method = any (λ m. bytes_eq m method) (allowed_methods route)

-- `rel.trim_start_matches('/')`.
unfoldable pub trim_slashes : Bytes → Bytes
trim_slashes [] = []
trim_slashes (x ∷ xs) = let rest = trim_slashes xs in if x == b'/' then rest else x ∷ xs

unfoldable pub relative_path : Bytes → Bytes → Bytes
unfolding trim_slashes
relative_path route_path req_path = trim_slashes (
    if bytes_eq route_path (codes "/")
    then req_path
    else drop (min (length route_path) (length req_path)) req_path)

escapes : Component → Bool
escapes parent_dir = true
escapes root_dir = true
escapes cur_dir = false
escapes (normal p) = false

unfoldable pub has_traversal : Bytes → Bool
unfolding escapes
has_traversal rel = any escapes (components rel)
