-- ===== src/Http/Router/Tests.antt =====
-- The unit tests of http/router.rs, and the theorems of the router at concrete requests.
use servoxide.Prelude.{
  ◌≡◌, ◌⊎◌, refl, true, false, ◌||◌, [], ◌∷◌, none, some, any, ◌==◌, All, option_map,
}
use servoxide.Text.{
  Bytes, codes, bytes_eq, starts_with, split, trim, to_ascii_lowercase, from_utf8_lossy, split_once,
  scan,
}
use servoxide.Dict.{Dict, lookup, insert, remove, text_eq}
use servoxide.Config.Types.{Route, ServerConfig, new_server, new_route}
use servoxide.Http.Request.Types.{Request}
use servoxide.Http.Router.Files.{FileSystem, file}
use servoxide.Http.Router.Paths.{components, parent}
use servoxide.Http.Router.Match.{best_route, has_traversal, relative_path, route_matches}
use servoxide.Http.Router.Match.Longest.{IsBest, best_route-IsBest}
use servoxide.Http.Router.Match.Traversal.{has_traversal-pieces}
use servoxide.Http.Router.Pages.{html_escape}
use servoxide.Http.Router.Pages.Escape.{entities, html_escape-entities, html_escape_safe}
use servoxide.Http.Router.Pages.Refused.{IsRefused}
use servoxide.Http.Router.Multipart.{
  sanitize_filename, multipart_boundary, part_filename, find, trim_start_matches, trim_end_matches,
}
use servoxide.Http.Router.Multipart.SafeName.{IsPlain, sanitize_filename-IsPlain}
use servoxide.Http.Router.CgiOutput.{parse_cgi_output}
use servoxide.Http.Router.CgiOutput.Laws.{is_framing, is_content_type, parse_cgi_output-headers}
use servoxide.Http.Router.Dispatch.{handle}
use servoxide.Http.Router.Dispatch.Access.{handle-traversal}

-- What a run of the router's checks opens.
abbrev runs : Unit {0}
unfolding components has_traversal relative_path route_matches best_route sanitize_filename
    multipart_boundary part_filename bytes_eq split starts_with split_once from_utf8_lossy
    to_ascii_lowercase trim codes scan find trim_start_matches trim_end_matches
runs = tt

route_matches-boundary :
    (route_matches (codes "/") (codes "/anything") ≡ true)
    × (route_matches (codes "/uploads") (codes "/uploads/file.txt") ≡ true)
    × (route_matches (codes "/uploads") (codes "/uploadsX") ≡ false)
unfolding runs
route_matches-boundary = (refl, refl, refl)

relative_path-prefix : relative_path (codes "/uploads") (codes "/uploads/a/b.txt") ≡ codes "a/b.txt"
unfolding runs
relative_path-prefix = refl

has_traversal-cases :
    (has_traversal (codes "../etc/passwd") ≡ true)
    × (has_traversal (codes "a/../../b") ≡ true)
    × (has_traversal (codes "a/b/c.txt") ≡ false)
unfolding runs
has_traversal-cases = (refl, refl, refl)

multipart_boundary-cases :
    (multipart_boundary (codes "multipart/form-data; boundary=XYZ") ≡ some (codes "--XYZ"))
    × (multipart_boundary (codes "multipart/form-data; boundary=\"a b\"") ≡ some (codes "--a b"))
    × (multipart_boundary (codes "text/plain") ≡ none)
unfolding runs
multipart_boundary-cases = (refl, refl, refl)

part_filename-case :
    part_filename (codes "Content-Disposition: form-data; name=\"file\"; filename=\"hi.txt\"")
    ≡ some (codes "hi.txt")
unfolding runs
part_filename-case = refl

sanitize_filename-cases :
    (sanitize_filename (codes "../../etc/passwd") ≡ codes "passwd")
    × (sanitize_filename (codes "a/b/c.txt") ≡ codes "c.txt")
    × (sanitize_filename (codes "..") ≡ [])
unfolding runs
sanitize_filename-cases = (refl, refl, refl)

-- A file system of plain files, in which every directory exists and is empty.
abbrev memory : FileSystem
memory = record {
  Files = Dict Bytes Bytes;
  metadata = λ st path. option_map (λ b. file) (lookup path st);
  read = λ st path. lookup path st;
  read_dir = λ st path. some [];
  canonicalize = λ st path. some path;
  create_dir_all = λ st path. (true, st);
  write = λ st path bytes. (true, insert path bytes st);
  remove_file = λ st path. (true, remove path st);
  execute = λ st interpreter script req. (none, st);
}

abbrev uploads : Route
uploads = record (new_route (codes "/uploads")) { root = some (codes "www") }

abbrev site : ServerConfig
site = record new_server { routes = new_route (codes "/") ∷ uploads ∷ [] }

abbrev escaping : Request
escaping = record {
  method = codes "DELETE";
  path = codes "/uploads/../secret";
  query = [];
  headers = [];
  body = [];
}

best_route-IsBest_example :
    ((best_route escaping site ≡ none)
      × All (λ r. route_matches r.path escaping.path ≡ false) site.routes)
    ⊎ ((r : Route) × (best_route escaping site ≡ some r) × IsBest escaping.path site.routes r)
best_route-IsBest_example = best_route-IsBest escaping site

has_traversal-pieces_example : has_traversal (codes "a/../b") ≡ (
    starts_with (codes "/") (codes "a/../b")
    || any (λ p. bytes_eq p (codes "..")) (split b'/' (codes "a/../b")))
has_traversal-pieces_example = has_traversal-pieces (codes "a/../b")

html_escape-entities_example : html_escape (codes "<a&b>") ≡ entities (codes "<a&b>")
html_escape-entities_example = html_escape-entities (codes "<a&b>")

html_escape_safe_example :
    any (λ c. c == b'<' || c == b'>' || c == b'"') (html_escape (codes "<a&b>")) ≡ false
html_escape_safe_example = html_escape_safe (codes "<a&b>")

sanitize_filename-IsPlain_example : IsPlain (sanitize_filename (codes "..\\..\\ .. "))
sanitize_filename-IsPlain_example = sanitize_filename-IsPlain (codes "..\\..\\ .. ")

abbrev cgi_text : Bytes
cgi_text = codes "Status: 404\nContent-Length: 9\n\nmissing"

parse_cgi_output-headers_example :
    (any is_framing (parse_cgi_output cgi_text).headers ≡ false)
    × (any is_content_type (parse_cgi_output cgi_text).headers ≡ true)
parse_cgi_output-headers_example = parse_cgi_output-headers cgi_text

abbrev stored : Dict Bytes Bytes
stored = (codes "secret", codes "key") ∷ []

handle-traversal_example :
    IsRefused memory stored (handle memory stored site escaping true)
    × ((handle memory stored site escaping true).0.keep_alive ≡ false)
unfolding runs
handle-traversal_example = handle-traversal memory stored site uploads escaping true refl refl refl

parent-cases :
    (parent (codes "/a/b") ≡ some (codes "/a"))
    × (parent (codes "//a") ≡ some (codes "/"))
    × (parent (codes "/./a") ≡ some (codes "/"))
    × (parent (codes "a") ≡ some [])
    × (parent (codes "/") ≡ none)
unfolding parent runs
parent-cases = (refl, refl, refl, refl, refl)
