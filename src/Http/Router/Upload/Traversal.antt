-- ===== src/Http/Router/Upload/Traversal.antt =====
-- Uploads under a path that escapes the root.
use servoxide.Prelude.{◌≡◌, refl, true, Option, none, some}
use servoxide.Text.{Bytes}
use servoxide.Config.Types.{Route, ServerConfig}
use servoxide.Http.Request.Types.{Request}
use servoxide.Http.Router.Files.{FileSystem}
use servoxide.Http.Router.Match.{relative_path, has_traversal}
use servoxide.Http.Router.Pages.Refused.{IsRefused, error-IsRefused}
use servoxide.Http.Router.Upload.{post_under, handle_post}

module _ (fs : FileSystem) (st : fs.Files) (server : ServerConfig) (route : Route) (req : Request)
    (up : has_traversal (relative_path route.path req.path) ≡ true) where
  post-IsRefused : (root : Option Bytes) → IsRefused fs st (post_under fs st server route req root)
  unfolding post_under
  post-IsRefused none = error-IsRefused fs st (some server) 404 refl
  post-IsRefused (some root) = rw up (error-IsRefused fs st (some server) 403 refl)

  pub handle_post-IsRefused : IsRefused fs st (handle_post fs st server route req)
  unfolding handle_post
  handle_post-IsRefused = post-IsRefused route.root
