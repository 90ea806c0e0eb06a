-- ===== src/Http/Router/Static/Traversal.antt =====
-- Reads and deletions under a path that escapes the root.
use servoxide.Prelude.{◌≡◌, refl, true, Option, none, some}
use servoxide.Text.{Bytes}
use servoxide.Config.Types.{Route, ServerConfig}
use servoxide.Http.Request.Types.{Request}
use servoxide.Http.Router.Files.{FileSystem}
use servoxide.Http.Router.Match.{relative_path, has_traversal}
use servoxide.Http.Router.Pages.Refused.{IsRefused, error-IsRefused}
use servoxide.Http.Router.Static.{get_under, delete_under, serve_get, handle_delete}

module _ (fs : FileSystem) (st : fs.Files) (server : ServerConfig) (route : Route) (req : Request)
    (up : has_traversal (relative_path route.path req.path) ≡ true) where
  get-IsRefused :
      (root : Option Bytes) → IsRefused fs st (get_under fs st server route req root, st)
  unfolding get_under
  get-IsRefused none = error-IsRefused fs st (some server) 404 refl
  get-IsRefused (some root) = rw up (error-IsRefused fs st (some server) 403 refl)

  pub serve_get-IsRefused : IsRefused fs st (serve_get fs st server route req, st)
  unfolding serve_get
  serve_get-IsRefused = get-IsRefused route.root

  delete-IsRefused :
      (root : Option Bytes) → IsRefused fs st (delete_under fs st server route req root)
  unfolding delete_under
  delete-IsRefused none = error-IsRefused fs st (some server) 404 refl
  delete-IsRefused (some root) = rw up (error-IsRefused fs st (some server) 403 refl)

  pub handle_delete-IsRefused : IsRefused fs st (handle_delete fs st server route req)
  unfolding handle_delete
  handle_delete-IsRefused = delete-IsRefused route.root
