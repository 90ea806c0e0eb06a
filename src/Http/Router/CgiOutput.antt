-- ===== src/Http/Router/CgiOutput.antt =====
-- `parse_cgi_output` of http/router.rs.
pub mod Laws
use servoxide.Prelude.{
  ℕ, ◌+◌, Bool, true, false, ◌||◌, not, List, [], ◌∷◌, ◌++◌, Option, none, some, if◌then◌else◌,
  and_then, is_empty, take, drop, ltb,
}
use servoxide.Text.{
  Bytes, codes, split, split_once, trim, first_word, eq_ignore_ascii_case, from_utf8_lossy,
  parse_u16,
}
use servoxide.Http.Response.{Response, new, set_header}
use servoxide.Http.Router.Multipart.{find, trim_end_matches}

-- The header block and the body: behind a blank line of either kind, or all of it is the body.
unfoldable pub cgi_parts : Bytes → Bytes × Bytes
unfolding find
cgi_parts raw = elim (find raw (codes "\r\n\r\n")) [
  | some i ↦ (take i raw, drop (i + 4) raw)
  | none ↦ elim (find raw (codes "\n\n")) [
    | some i ↦ (take i raw, drop (i + 2) raw)
    | none ↦ ([], raw)
  ]
]

-- The loop's variables: the status, the headers kept and whether one is the content type.
pub record CgiHead : Type 0 where
  pub status : ℕ
  pub headers : List (Bytes × Bytes)
  pub has_content_type : Bool

abbrev pub cgi_start : CgiHead
cgi_start = record { status = 200; headers = []; has_content_type = false }

or_200 : Option ℕ → ℕ
or_200 none = 200
or_200 (some n) = n

cgi_field : CgiHead → Bytes → Bytes → CgiHead
unfolding or_200
cgi_field h k v =
    if eq_ignore_ascii_case k (codes "status")
    then record h { status = or_200 (and_then (first_word v) parse_u16) }
    else if eq_ignore_ascii_case k (codes "content-length")
        || eq_ignore_ascii_case k (codes "connection")
        || eq_ignore_ascii_case k (codes "transfer-encoding")
    then h
    else record h {
      headers = h.headers ++ (k, v) ∷ [];
      has_content_type = h.has_content_type || eq_ignore_ascii_case k (codes "content-type");
    }

cgi_line : CgiHead → Option (Bytes × Bytes) → CgiHead
unfolding cgi_field
cgi_line h none = h
cgi_line h (some (k, v)) = cgi_field h (trim k) (trim v)

-- The loop over the lines; an empty line is passed over.
unfoldable pub cgi_lines : CgiHead → List Bytes → CgiHead
unfolding cgi_line trim_end_matches
cgi_lines h [] = h
cgi_lines h (l ∷ ls) =
    let line = trim_end_matches b'\r' l in
    cgi_lines (if is_empty line then h else cgi_line h (split_once b':' line)) ls

set_headers : Response → List (Bytes × Bytes) → Response
set_headers r [] = r
set_headers r ((k, v) ∷ hs) = set_headers (set_header r k v) hs

cgi_response : CgiHead → Bytes → Response
unfolding set_headers
cgi_response h body =
    let r = new h.status in
    let r' =
      if not h.has_content_type
      then set_header r (codes "Content-Type") (codes "text/plain; charset=utf-8")
      else r in
    record (set_headers r' h.headers) { body = body }

unfoldable pub parse_cgi_output : Bytes → Response
unfolding cgi_parts cgi_lines cgi_response
parse_cgi_output raw =
    let (header_bytes, body) = cgi_parts raw in
    cgi_response (cgi_lines cgi_start (split b'\n' (from_utf8_lossy header_bytes))) body
