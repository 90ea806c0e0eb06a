-- ===== src/Http/Router/Dispatch/Access.antt =====
-- Requests that may not touch the files.
use servoxide.Prelude.{
  ℕ, ◌≡◌, inl, inr, refl, Bool, true, false, Option, none, some, Bool-cases, is_empty, arith,
}
use servoxide.Text.{Bytes, bytes_eq, codes}
use servoxide.Config.Types.{Route, ServerConfig}
use servoxide.Http.Request.Types.{Request}
use servoxide.Http.Response.{set_header}
use servoxide.Http.Router.Files.{FileSystem}
use servoxide.Http.Router.Match.{relative_path, has_traversal, best_route, method_allowed}
use servoxide.Http.Router.Pages.Refused.{IsRefused, error-IsRefused}
use servoxide.Http.Router.Static.Traversal.{serve_get-IsRefused, handle_delete-IsRefused}
use servoxide.Http.Router.Upload.Traversal.{handle_post-IsRefused}
use servoxide.Http.Router.Dispatch.{
  cgi_under, try_cgi, by_method, or_static, checked, redirected, routed, route_request, handle,
}

module _ (fs : FileSystem) (st : fs.Files) (server : ServerConfig) (route : Route) (req : Request)
    (up : has_traversal (relative_path route.path req.path) ≡ true) where
  by_method-IsRefused : IsRefused fs st (by_method fs st server route req)
  unfolding by_method
  by_method-IsRefused = elim (Bool-cases (bytes_eq req.method (codes "GET"))) [
    | inl get ↦ rw get (serve_get-IsRefused fs st server route req up)
    | inr other ↦ elim (Bool-cases (bytes_eq req.method (codes "POST"))) [
      | inl post ↦ rw (other, post) (handle_post-IsRefused fs st server route req up)
      | inr other' ↦ elim (Bool-cases (bytes_eq req.method (codes "DELETE"))) [
        | inl delete ↦
            rw (other, other', delete) (handle_delete-IsRefused fs st server route req up)
        | inr other'' ↦ rw (other, other', other'') (error-IsRefused fs st (some server) 501 refl)
      ]
    ]
  ]

  under-IsRefused :
      (root : Option Bytes)
      → IsRefused fs st (or_static fs st server route req (cgi_under fs st server route req root))
  unfolding cgi_under or_static
  under-IsRefused none = by_method-IsRefused
  under-IsRefused (some root) = rw up (error-IsRefused fs st (some server) 403 refl)

  cgi-IsRefused :
      IsRefused fs st (or_static fs st server route req (try_cgi fs st server route req))
  unfolding try_cgi or_static
  cgi-IsRefused = elim (Bool-cases (is_empty route.cgi)) [
    | inl static ↦ rw static by_method-IsRefused
    | inr scripts ↦ rw scripts (under-IsRefused route.root)
  ]

  checked-IsRefused : IsRefused fs st (checked fs st server route req)
  unfolding checked set_header
  checked-IsRefused = elim (Bool-cases (method_allowed route req.method)) [
    | inl allowed ↦ rw allowed cgi-IsRefused
    | inr denied ↦ rw denied (error-IsRefused fs st (some server) 405 refl)
  ]

  redirected-IsRefused :
      (redirect : Option (ℕ × Bytes))
      → redirect ≡ none
      → IsRefused fs st (redirected fs st server route req redirect)
  unfolding redirected
  redirected-IsRefused none h = checked-IsRefused
  redirected-IsRefused (some r) h = ground (arith, h)

  routed-IsRefused :
      best_route req server ≡ some route
      → route.redirect ≡ none
      → IsRefused fs st (route_request fs st server req)
  unfolding route_request routed
  routed-IsRefused best plain = rw best (redirected-IsRefused route.redirect plain)

-- A request for a path that escapes the root of its route, where the route is no redirect, gets
-- an error status, ends the connection, and leaves all files as they were.
pub handle-traversal :
    (fs : FileSystem) (st : fs.Files) (server : ServerConfig) (route : Route) (req : Request)
    (keep_alive : Bool)
    → best_route req server ≡ some route
    → route.redirect ≡ none
    → has_traversal (relative_path route.path req.path) ≡ true
    → IsRefused fs st (handle fs st server req keep_alive)
      × ((handle fs st server req keep_alive).0.keep_alive ≡ false)
unfolding handle
handle-traversal fs st server route req keep_alive best plain up =
    let refused = routed-IsRefused fs st server route req up best plain in
    (refused, ground (arith, refused.0))
