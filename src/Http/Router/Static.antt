-- ===== src/Http/Router/Static.antt =====
-- `serve_get`, `serve_file` and `handle_delete` of http/router.rs.
pub mod Traversal
use servoxide.Prelude.{
  ℕ, Bool, true, false, ◌||◌, List, [], Option, none, some, if◌then◌else◌, is_empty,
}
use servoxide.Text.{Bytes}
use servoxide.Config.Types.{Route, ServerConfig}
use servoxide.Http.Mime.{mime_for}
use servoxide.Text.{from_utf8_lossy}
use servoxide.Http.Request.Types.{Request}
use servoxide.Http.Response.{Response, with_body, new}
use servoxide.Http.Router.Files.{FileSystem, FileKind, dir, file, other}
use servoxide.Http.Router.Paths.{join}
use servoxide.Http.Router.Match.{relative_path, has_traversal}
use servoxide.Http.Router.Pages.{error_response, autoindex}

module _ (fs : FileSystem) where
  open fs use {Files, metadata, read, remove_file}

  unfoldable pub serve_file : Files → ServerConfig → Bytes → Response
  serve_file st server path = elim (read st path) [
    | some bytes ↦ with_body 200 (mime_for (from_utf8_lossy path)) bytes
    | none ↦ error_response fs st (some server) 500
  ]

  is_file : Option FileKind → Bool
  is_file (some file) = true
  is_file _ = false

  -- A directory: its index file, then a listing, then `403`.
  no_index : Files → ServerConfig → Route → Bytes → Bytes → Response
  no_index st server route fs_path url_path =
      if route.autoindex
      then autoindex fs st server fs_path url_path
      else error_response fs st (some server) 403

  serve_dir : Files → ServerConfig → Route → Option Bytes → Bytes → Bytes → Response
  unfolding is_file no_index serve_file
  serve_dir st server route none fs_path url_path = no_index st server route fs_path url_path
  serve_dir st server route (some index) fs_path url_path =
      if is_file (metadata st (join fs_path index))
      then serve_file st server (join fs_path index)
      else no_index st server route fs_path url_path

  serve_path : Files → ServerConfig → Route → Option FileKind → Bytes → Bytes → Response
  unfolding serve_dir
  serve_path st server route none fs_path url_path = error_response fs st (some server) 404
  serve_path st server route (some dir) fs_path url_path =
      serve_dir st server route route.index fs_path url_path
  serve_path st server route (some file) fs_path url_path = serve_file st server fs_path
  serve_path st server route (some other) fs_path url_path = serve_file st server fs_path

  get_under : Files → ServerConfig → Route → Request → Option Bytes → Response
  unfolding serve_path
  get_under st server route req none = error_response fs st (some server) 404
  get_under st server route req (some root) =
      let rel = relative_path route.path req.path in
      if has_traversal rel
      then error_response fs st (some server) 403
      else serve_path st server route (metadata st (join root rel)) (join root rel) req.path

  unfoldable pub serve_get : Files → ServerConfig → Route → Request → Response
  unfolding get_under
  serve_get st server route req = get_under st server route req route.root

  removed : Files → ServerConfig → Bool × Files → Response × Files
  removed st server (true, st') = (new 204, st')
  removed st server (false, st') = (error_response fs st' (some server) 500, st')

  delete_path : Files → ServerConfig → Option FileKind → Bytes → Response × Files
  unfolding removed
  delete_path st server none path = (error_response fs st (some server) 404, st)
  delete_path st server (some dir) path = (error_response fs st (some server) 403, st)
  delete_path st server (some file) path = removed st server (remove_file st path)
  delete_path st server (some other) path = removed st server (remove_file st path)

  delete_under : Files → ServerConfig → Route → Request → Option Bytes → Response × Files
  unfolding delete_path
  delete_under st server route req none = (error_response fs st (some server) 404, st)
  delete_under st server route req (some root) =
      let rel = relative_path route.path req.path in
      if has_traversal rel || is_empty rel
      then (error_response fs st (some server) 403, st)
      else delete_path st server (metadata st (join root rel)) (join root rel)

  unfoldable pub handle_delete : Files → ServerConfig → Route → Request → Response × Files
  unfolding delete_under
  handle_delete st server route req = delete_under st server route req route.root
