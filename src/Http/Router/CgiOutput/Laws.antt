-- ===== src/Http/Router/CgiOutput/Laws.antt =====
-- The headers of a CGI response (http/router.rs).
use servoxide.Prelude.{
  ◌≡◌, refl, ◌∙◌, sym, Bool, true, false, ◌||◌, List, [], ◌∷◌, ◌++◌, Option, none, some, arith, any,
  inl, inr, Bool-cases, is_empty, append-nil, append_assoc,
}
use servoxide.Text.{Bytes, codes, eq_ignore_ascii_case, split_once, trim, split, from_utf8_lossy}
use servoxide.Http.Response.{Response, new, set_header}
use servoxide.Http.Router.Multipart.{trim_end_matches}
use servoxide.Http.Router.CgiOutput.{
  CgiHead, cgi_start, cgi_field, cgi_line, cgi_lines, cgi_response, set_headers, parse_cgi_output,
  cgi_parts,
}

-- The headers that the server writes itself.
abbrev pub is_framing : Bytes × Bytes → Bool
is_framing (k, v) =
    eq_ignore_ascii_case k (codes "content-length")
    || eq_ignore_ascii_case k (codes "connection")
    || eq_ignore_ascii_case k (codes "transfer-encoding")

abbrev pub is_content_type : Bytes × Bytes → Bool
is_content_type (k, v) = eq_ignore_ascii_case k (codes "content-type")

any-append :
    (p : Bytes × Bytes → Bool) (xs ys : List (Bytes × Bytes))
    → any p (xs ++ ys) ≡ (any p xs || any p ys)
any-append p [] ys = refl
any-append p (x ∷ xs) ys = ground (arith, any-append p xs ys)

record IsKept (h : CgiHead) : Type 0 where
  no_framing : any is_framing h.headers ≡ false
  typed : h.has_content_type ≡ any is_content_type h.headers

field-IsKept : (h : CgiHead) (k v : Bytes) → IsKept h → IsKept (cgi_field h k v)
unfolding cgi_field
field-IsKept h k v i = elim (Bool-cases (eq_ignore_ascii_case k (codes "status"))) [
  | inl status ↦ rw status (record { no_framing = i.no_framing; typed = i.typed })
  | inr other ↦ elim (Bool-cases (is_framing (k, v))) [
    | inl framing ↦ rw (other, framing) i
    | inr plain ↦
        rw (other, plain)
          (record {
            no_framing =
                ground (arith, any-append is_framing h.headers ((k, v) ∷ []), i.no_framing, plain);
            typed = ground (arith, any-append is_content_type h.headers ((k, v) ∷ []), i.typed);
          })
  ]
]

line-IsKept : (h : CgiHead) (l : Option (Bytes × Bytes)) → IsKept h → IsKept (cgi_line h l)
unfolding cgi_line
line-IsKept h none i = i
line-IsKept h (some (k, v)) i = field-IsKept h (trim k) (trim v) i

lines-IsKept : (h : CgiHead) (ls : List Bytes) → IsKept h → IsKept (cgi_lines h ls)
unfolding cgi_lines
lines-IsKept h [] i = i
lines-IsKept h (l ∷ ls) i = elim (Bool-cases (is_empty (trim_end_matches b'\r' l))) [
  | inl empty ↦ rw empty (lines-IsKept h ls i)
  | inr full ↦ rw full (
      lines-IsKept (cgi_line h (split_once b':' (trim_end_matches b'\r' l))) ls
        (line-IsKept h (split_once b':' (trim_end_matches b'\r' l)) i))
]

set_headers_lem :
    (r : Response) (hs : List (Bytes × Bytes)) → (set_headers r hs).headers ≡ r.headers ++ hs
unfolding set_headers set_header
set_headers_lem r [] = sym (append-nil r.headers)
set_headers_lem r ((k, v) ∷ hs) =
    set_headers_lem (set_header r k v) hs ∙ append_assoc r.headers ((k, v) ∷ []) hs

default_type : is_content_type (codes "Content-Type", []) ≡ true
unfolding codes eq_ignore_ascii_case
default_type = refl

default_framing : is_framing (codes "Content-Type", []) ≡ false
unfolding codes eq_ignore_ascii_case
default_framing = refl

response-IsKept :
    (h : CgiHead) (body : Bytes)
    → IsKept h
    → (any is_framing (cgi_response h body).headers ≡ false)
      × (any is_content_type (cgi_response h body).headers ≡ true)
unfolding cgi_response set_header
response-IsKept h body i = elim (Bool-cases h.has_content_type) [
  | inl has ↦ rw (has, set_headers_lem (new h.status) h.headers) (i.no_framing, sym i.typed ∙ has)
  | inr lacks ↦
      rw (lacks, set_headers_lem _ h.headers)
        (rw default_framing i.no_framing, rw default_type refl)
]

-- Whatever a script prints, its response has no Content-Length, Connection or Transfer-Encoding
-- header, and has a Content-Type.
pub parse_cgi_output-headers :
    (raw : Bytes)
    → (any is_framing (parse_cgi_output raw).headers ≡ false)
      × (any is_content_type (parse_cgi_output raw).headers ≡ true)
unfolding parse_cgi_output
parse_cgi_output-headers raw = response-IsKept _ (cgi_parts raw).1 (
    lines-IsKept cgi_start (split b'\n' (from_utf8_lossy (cgi_parts raw).0))
      (record { no_framing = refl; typed = refl }))
