-- ===== src/Http/Router/Dispatch.antt =====
-- `handle`, `route` and `try_cgi` of http/router.rs.
pub mod Access
use servoxide.Prelude.{
  ℕ, Bool, true, false, ◌&&◌, not, List, [], ◌∷◌, ◌++◌, Option, none, some, if◌then◌else◌, is_empty,
  option_map, and_then, ltb, leb,
}
use servoxide.Text.{Bytes, bytes_eq, codes}
use servoxide.Dict.{lookup, text_eq}
use servoxide.Config.Types.{Route, ServerConfig}
use servoxide.Http.Request.Types.{Request}
use servoxide.Http.Response.{Response, set_header}
use servoxide.Http.Router.Files.{FileSystem}
use servoxide.Http.Router.Paths.{join, extension}
use servoxide.Http.Router.Match.{
  best_route, allowed_methods, method_allowed, relative_path, has_traversal,
}
use servoxide.Http.Router.Pages.{error_response, redirect_to}
use servoxide.Http.Router.Static.{serve_get, handle_delete}
use servoxide.Http.Router.Upload.{handle_post, join_names}
use servoxide.Http.Router.CgiOutput.{parse_cgi_output}

module _ (fs : FileSystem) where
  open fs use {Files, canonicalize, execute}

  cgi_answer : ServerConfig → Option Bytes × Files → Response × Files
  cgi_answer server (some output, st) = (parse_cgi_output output, st)
  cgi_answer server (none, st) = (error_response fs st (some server) 500, st)

  run_script : Files → ServerConfig → Request → Bytes → Option Bytes → Response × Files
  unfolding cgi_answer
  run_script st server req interpreter none = (error_response fs st (some server) 404, st)
  run_script st server req interpreter (some abs) =
      cgi_answer server (execute st interpreter abs req)

  -- The interpreter configured for the extension of the target, with its dot.
  unfoldable pub interpreter_for : Route → Bytes → Option Bytes
  interpreter_for route fs_path = and_then (extension fs_path) λ e. lookup (b'.' ∷ e) route.cgi

  cgi_script : Files → ServerConfig → Route → Request → Bytes → Option (Response × Files)
  unfolding run_script
  cgi_script st server route req fs_path =
      option_map (λ i. run_script st server req i (canonicalize st fs_path))
        (interpreter_for route fs_path)

  cgi_under : Files → ServerConfig → Route → Request → Option Bytes → Option (Response × Files)
  unfolding cgi_script
  cgi_under st server route req none = none
  cgi_under st server route req (some root) =
      let rel = relative_path route.path req.path in
      if has_traversal rel
      then some (error_response fs st (some server) 403, st)
      else cgi_script st server route req (join root rel)

  -- `none` leaves the request to the static handlers.
  unfoldable pub try_cgi : Files → ServerConfig → Route → Request → Option (Response × Files)
  unfolding cgi_under
  try_cgi st server route req =
      if is_empty route.cgi then none else cgi_under st server route req route.root

  unfoldable pub by_method : Files → ServerConfig → Route → Request → Response × Files
  by_method st server route req =
      if bytes_eq req.method (codes "GET")
      then (serve_get fs st server route req, st)
      else if bytes_eq req.method (codes "POST")
      then handle_post fs st server route req
      else if bytes_eq req.method (codes "DELETE")
      then handle_delete fs st server route req
      else (error_response fs st (some server) 501, st)

  or_static : Files → ServerConfig → Route → Request → Option (Response × Files) → Response × Files
  unfolding by_method
  or_static st server route req none = by_method st server route req
  or_static st server route req (some answer) = answer

  unfoldable pub checked : Files → ServerConfig → Route → Request → Response × Files
  unfolding or_static try_cgi
  checked st server route req =
      if not (method_allowed route req.method)
      then (
        set_header (error_response fs st (some server) 405) (codes "Allow")
            (join_names (allowed_methods route)),
        st,
      )
      else or_static st server route req (try_cgi st server route req)

  -- Redirects take effect before any file is touched.
  redirected : Files → ServerConfig → Route → Request → Option (ℕ × Bytes) → Response × Files
  unfolding checked
  redirected st server route req (some r) = (redirect_to r, st)
  redirected st server route req none = checked st server route req

  routed : Files → ServerConfig → Request → Option Route → Response × Files
  unfolding redirected
  routed st server req none = (error_response fs st (some server) 404, st)
  routed st server req (some route) = redirected st server route req route.redirect

  unfoldable pub route_request : Files → ServerConfig → Request → Response × Files
  unfolding routed
  route_request st server req = routed st server req (best_route req server)

  -- Any error status forces the connection to close.
  unfoldable pub handle : Files → ServerConfig → Request → Bool → Response × Files
  unfolding route_request
  handle st server req keep_alive =
      let (resp, st') = route_request st server req in
      (record resp { keep_alive = keep_alive && ltb resp.status 400 }, st')
