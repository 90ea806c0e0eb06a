-- ===== src/Http/Mime.antt =====
-- lc/src/http/mime.rs.
use servoxide.Prelude.{◌||◌, Option, none, some, last?, reverse, option_map, if◌then◌else◌}
use servoxide.Text.{Bytes, bytes_eq, codes, split, split_once, to_ascii_lowercase}

-- `path.rsplit('/').next().unwrap_or(path)`: the last piece.
or_path : Bytes → Option Bytes → Bytes
or_path path none = path
or_path path (some p) = p

-- `s.rsplit_once(sep)`: `split_once` of the text read backwards.
unfoldable pub rsplit_dot : Bytes → Option (Bytes × Bytes)
rsplit_dot s =
    option_map (λ (p : Bytes × Bytes). (reverse p.1, reverse p.0)) (split_once b'.' (reverse s))

mime_of_ext : Bytes → Bytes
mime_of_ext ext =
    if bytes_eq ext (codes "html") || bytes_eq ext (codes "htm")
    then codes "text/html; charset=utf-8"
    else if bytes_eq ext (codes "css")
    then codes "text/css; charset=utf-8"
    else if bytes_eq ext (codes "js") || bytes_eq ext (codes "mjs")
    then codes "text/javascript; charset=utf-8"
    else if bytes_eq ext (codes "json")
    then codes "application/json"
    else if bytes_eq ext (codes "xml")
    then codes "application/xml"
    else if bytes_eq ext (codes "txt")
    then codes "text/plain; charset=utf-8"
    else if bytes_eq ext (codes "csv")
    then codes "text/csv; charset=utf-8"
    else if bytes_eq ext (codes "png")
    then codes "image/png"
    else if bytes_eq ext (codes "jpg") || bytes_eq ext (codes "jpeg")
    then codes "image/jpeg"
    else if bytes_eq ext (codes "gif")
    then codes "image/gif"
    else if bytes_eq ext (codes "svg")
    then codes "image/svg+xml"
    else if bytes_eq ext (codes "ico")
    then codes "image/x-icon"
    else if bytes_eq ext (codes "webp")
    then codes "image/webp"
    else if bytes_eq ext (codes "pdf")
    then codes "application/pdf"
    else if bytes_eq ext (codes "wasm")
    then codes "application/wasm"
    else if bytes_eq ext (codes "mp4")
    then codes "video/mp4"
    else if bytes_eq ext (codes "mp3")
    then codes "audio/mpeg"
    else if bytes_eq ext (codes "woff")
    then codes "font/woff"
    else if bytes_eq ext (codes "woff2")
    then codes "font/woff2"
    else codes "application/octet-stream"

mime_of_file : Option (Bytes × Bytes) → Bytes
unfolding mime_of_ext
mime_of_file none = codes "application/octet-stream"
mime_of_file (some (stem, e)) = mime_of_ext (to_ascii_lowercase e)

unfoldable pub mime_for : Bytes → Bytes
unfolding mime_of_file or_path
mime_for path = mime_of_file (rsplit_dot (or_path path (last? (split b'/' path))))
