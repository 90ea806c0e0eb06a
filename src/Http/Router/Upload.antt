-- ===== src/Http/Router/Upload.antt =====
-- `save_multipart` and `handle_post` of http/router.rs.
pub mod Traversal
use servoxide.Prelude.{
  ℕ, Bool, true, false, List, [], ◌∷◌, ◌++◌, Option, none, some, if◌then◌else◌, is_empty, length,
}
use servoxide.Text.{Bytes, codes, to_string}
use servoxide.Dict.{lookup, text_eq}
use servoxide.Config.Types.{Route, ServerConfig}
use servoxide.Http.Request.Types.{Request}
use servoxide.Http.Response.{Response, with_body, set_header}
use servoxide.Http.Router.Files.{FileSystem}
use servoxide.Http.Router.Paths.{join, parent}
use servoxide.Http.Router.Match.{relative_path, has_traversal}
use servoxide.Http.Router.Pages.{error_response}
use servoxide.Http.Router.Multipart.{find_all, segments, part_file, multipart_boundary}

-- `saved.join(", ")`.
unfoldable pub join_names : List Bytes → Bytes
join_names [] = []
join_names (n ∷ []) = n
join_names (n ∷ m ∷ ns) = n ++ (codes ", " ++ join_names (m ∷ ns))

module _ (fs : FileSystem) where
  open fs use {Files, write, create_dir_all}

  -- One part: nothing to save, a failed write, or one more name.
  pub data Saved : Type 0 where
    skipped : Saved
    failed : Files → Saved
    wrote : Bytes → Files → Saved

  written : Bytes → Bool × Files → Saved
  written name (true, st) = wrote name st
  written name (false, st) = failed st

  unfoldable pub save_part : Files → Bytes → Option (Bytes × Bytes) → Saved
  unfolding written
  save_part st root none = skipped
  save_part st root (some (name, content)) = written name (write st (join root name) content)

  -- The loop over the parts; a failed write ends it, and what was saved stays.
  unfoldable pub save_parts : Files → Bytes → List Bytes → List Bytes → Option (List Bytes) × Files
  save_parts st root saved [] = (some saved, st)
  save_parts st root saved (seg ∷ segs) = elim (save_part st root (part_file seg)) [
    | skipped ↦ save_parts st root saved segs
    | failed st' ↦ (none, st')
    | wrote name st' ↦ save_parts st' root (saved ++ name ∷ []) segs
  ]

  upload_answer : ServerConfig → Option (List Bytes) × Files → Response × Files
  upload_answer server (none, st) = (error_response fs st (some server) 500, st)
  upload_answer server (some [], st) = (error_response fs st (some server) 400, st)
  upload_answer server (some (n ∷ ns), st) = (
    with_body 201 (codes "text/plain; charset=utf-8")
        (codes "uploaded: " ++ (join_names (n ∷ ns) ++ codes "\n")),
    st,
  )

  unfoldable pub save_multipart : Files → ServerConfig → Bytes → Bytes → Bytes → Response × Files
  unfolding upload_answer
  save_multipart st server body delim root =
      upload_answer server
        (save_parts st root [] (segments body (length delim) (find_all body delim)))

  raw_written : ServerConfig → Request → Bool × Files → Response × Files
  raw_written server req (false, st) = (error_response fs st (some server) 500, st)
  raw_written server req (true, st) = (
    set_header
        (with_body 201 (codes "text/plain; charset=utf-8") (
          codes "created "
          ++ (req.path ++ (codes " (" ++ (to_string (length req.body) ++ codes " bytes)\n")))))
        (codes "Location") req.path,
    st,
  )

  -- The directory above the destination is made first, if it has one.
  raw_upload : ServerConfig → Request → Bytes → Bool × Files → Response × Files
  unfolding raw_written
  raw_upload server req dest (false, st) = (error_response fs st (some server) 500, st)
  raw_upload server req dest (true, st) = raw_written server req (write st dest req.body)

  made_parent : Files → Option Bytes → Bool × Files
  made_parent st none = (true, st)
  made_parent st (some p) = create_dir_all st p

  post_body : Files → ServerConfig → Request → Bytes → Bytes → Option Bytes → Response × Files
  unfolding raw_upload made_parent
  post_body st server req root rel (some boundary) = save_multipart st server req.body boundary root
  post_body st server req root rel none =
      if is_empty rel
      then (error_response fs st (some server) 400, st)
      else raw_upload server req (join root rel) (made_parent st (parent (join root rel)))

  -- `unwrap_or("")`.
  content_type_of : Request → Bytes
  content_type_of req = elim (lookup (codes "content-type") req.headers) [ none ↦ [] | some v ↦ v ]

  post_under : Files → ServerConfig → Route → Request → Option Bytes → Response × Files
  unfolding post_body content_type_of
  post_under st server route req none = (error_response fs st (some server) 404, st)
  post_under st server route req (some root) =
      let rel = relative_path route.path req.path in
      if has_traversal rel
      then (error_response fs st (some server) 403, st)
      else post_body st server req root rel (multipart_boundary (content_type_of req))

  unfoldable pub handle_post : Files → ServerConfig → Route → Request → Response × Files
  unfolding post_under
  handle_post st server route req = post_under st server route req route.root
