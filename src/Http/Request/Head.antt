-- ===== src/Http/Request/Head.antt =====
-- `parse_head` of http/request.rs. An inner `none` is an early `return HeadStatus::Bad(400)`.
pub mod Laws
use servoxide.Prelude.{
  ℕ, ◌+◌, ◌*◌, Bool, ◌&&◌, ◌||◌, not, List, [], ◌∷◌, Option, none, some, ltb, ◌==◌, if◌then◌else◌,
  and_then, any, is_empty, length, take,
}
use servoxide.Text.{
  Bytes, codes, from_utf8, split, split_crlf, split_once, starts_with, to_ascii_lowercase, trim,
}
use servoxide.Dict.{Dict, insert, text_eq}
use servoxide.Http.Request.Types.{RequestHead, HeadStatus}
use servoxide.Http.Request.Search.{crlf2, find_from}
use servoxide.Http.Request.Percent.{percent_decode}

abbrev pub max_head_bytes : ℕ
max_head_bytes = 64 * 1024

-- METHOD SP request-target SP HTTP-version.
pub record RequestLine : Type 0 where
  pub method : Bytes
  pub target : Bytes
  pub version : Bytes

unfoldable pub three_parts : List Bytes → Option RequestLine
three_parts (m ∷ t ∷ v ∷ []) =
    if not (is_empty m) && not (is_empty t)
    then some (record { method = m; target = t; version = v })
    else none
three_parts _ = none

unfoldable pub parse_request_line : Bytes → Option RequestLine
unfolding three_parts
parse_request_line line =
    and_then (three_parts (split b' ' line))
      λ r. if starts_with (codes "HTTP/") r.version then some r else none

-- The check of a field name, and the insertion.
unfoldable pub add_header : Dict Bytes Bytes → Bytes × Bytes → Option (Dict Bytes Bytes)
add_header headers (name, value) =
    if is_empty name || any (λ c. c == b' ' || c == b'\t') name
    then none
    else some (insert (to_ascii_lowercase name) (trim value) headers)

unfoldable pub parse_headers : Dict Bytes Bytes → List Bytes → Option (Dict Bytes Bytes)
unfolding add_header
parse_headers headers [] = some headers
parse_headers headers (line ∷ lines) =
    and_then (and_then (split_once b':' line) (add_header headers)) λ h. parse_headers h lines

-- The path and the query of the target.
unfoldable pub split_target : Bytes → Option (Bytes × Bytes) → Bytes × Bytes
split_target target none = (target, [])
split_target target (some p) = p

unfoldable pub head_of : ℕ → RequestLine → Dict Bytes Bytes → RequestHead
unfolding split_target
head_of head_len r headers =
    let (path_raw, query) = split_target r.target (split_once b'?' r.target) in
    record {
      method = r.method;
      path = percent_decode path_raw;
      query = query;
      version = r.version;
      headers = headers;
      head_len = head_len;
    }

unfoldable pub parse_lines : ℕ → List Bytes → Option RequestHead
unfolding parse_request_line parse_headers head_of
parse_lines head_len [] = none
parse_lines head_len (request_line ∷ lines) =
    and_then (parse_request_line request_line)
      λ r. and_then (parse_headers [] lines) λ headers. some (head_of head_len r headers)

unfoldable pub or_bad : Option RequestHead → HeadStatus
or_bad none = HeadStatus.bad 400
or_bad (some head) = HeadStatus.ok head

-- What the bytes before the blank line say.
unfoldable pub parse_text : ℕ → Bytes → HeadStatus
unfolding parse_lines or_bad
parse_text head_len bytes =
    or_bad (and_then (from_utf8 bytes) λ text. parse_lines head_len (split_crlf text))

unfoldable pub parse_head : Bytes → HeadStatus
unfolding parse_text
parse_head buf = elim (find_from buf 0 crlf2) [
  | none ↦ if ltb max_head_bytes (length buf) then HeadStatus.bad 400 else HeadStatus.need_more
  | some end ↦ parse_text (end + 4) (take end buf)
]
