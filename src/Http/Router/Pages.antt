-- ===== src/Http/Router/Pages.antt =====
-- The pages the router makes up: errors, directory listings, redirects (http/router.rs).
pub mod Escape
pub mod Refused
use servoxide.Prelude.{
  ℕ, Bool, true, false, ◌&&◌, ◌||◌, not, List, [], ◌∷◌, ◌++◌, Option, none, some, ltb, leb, ◌==◌,
  if◌then◌else◌, reverse, and_then,
}
use servoxide.Text.{Bytes, bytes_eq, codes, starts_with, to_string, from_utf8_lossy}
use servoxide.Dict.{lookup, nat_eq}
use servoxide.Config.Types.{Route, ServerConfig}
use servoxide.Http.Status.{reason_phrase}
use servoxide.Http.Mime.{mime_for}
use servoxide.Http.Response.{Response, with_body, set_header}
use servoxide.Http.Router.Files.{FileSystem}

unfoldable pub default_error_html : ℕ → Bytes
default_error_html code =
    let title = to_string code ++ (codes " " ++ reason_phrase code) in
    codes "<!DOCTYPE html><html><head><meta charset=\"utf-8\"><title>"
    ++ (title
        ++ (codes "</title></head><body><h1>"
            ++ (title ++ codes "</h1><hr><p>localhost</p></body></html>")))

-- `s.replace(c, with)` for a character.
unfoldable pub replace : ℕ → Bytes → Bytes → Bytes
replace c with [] = []
replace c with (x ∷ xs) = let rest = replace c with xs in if x == c then with ++ rest else x ∷ rest

unfoldable pub html_escape : Bytes → Bytes
unfolding replace
html_escape s =
    replace b'"' (codes "&quot;")
      (replace b'>' (codes "&gt;") (replace b'<' (codes "&lt;") (replace b'&' (codes "&amp;") s)))

-- The derived order on `(String, bool)`.
bytes_lt : Bytes → Bytes → Bool
bytes_lt [] [] = false
bytes_lt [] (y ∷ ys) = true
bytes_lt (x ∷ xs) [] = false
bytes_lt (x ∷ xs) (y ∷ ys) = ltb x y || (x == y && bytes_lt xs ys)

item_le : Bytes × Bool → Bytes × Bool → Bool
item_le (a, p) (b, q) = bytes_lt a b || (bytes_eq a b && (not p || q))

insert_item : Bytes × Bool → List (Bytes × Bool) → List (Bytes × Bool)
insert_item a [] = a ∷ []
insert_item a (b ∷ bs) = if item_le a b then a ∷ b ∷ bs else b ∷ insert_item a bs

-- `items.sort()`.
unfoldable pub sort_items : List (Bytes × Bool) → List (Bytes × Bool)
unfolding insert_item item_le bytes_lt
sort_items [] = []
sort_items (a ∷ as') = insert_item a (sort_items as')

list_item : Bytes → Bytes × Bool → Bytes
list_item base (name, is_dir) =
    let enc = html_escape name ++ (if is_dir then codes "/" else []) in
    codes "<li><a href=\"" ++ (base ++ (enc ++ (codes "\">" ++ (enc ++ codes "</a></li>"))))

list_items : Bytes → List (Bytes × Bool) → Bytes
list_items base [] = []
list_items base (i ∷ is) = list_item base i ++ list_items base is

-- The names as `String`s.
lossy_names : List (Bytes × Bool) → List (Bytes × Bool)
lossy_names [] = []
lossy_names ((n, d) ∷ es) = (from_utf8_lossy n, d) ∷ lossy_names es

unfoldable pub listing_html : Bytes → List (Bytes × Bool) → Bytes
unfolding list_items list_item lossy_names sort_items html_escape
listing_html url_path entries =
    let base =
      if starts_with (codes "/") (reverse url_path) then url_path else url_path ++ codes "/" in
    codes "<!DOCTYPE html><html><head><meta charset=\"utf-8\"><title>Index of "
    ++ (url_path
        ++ (codes "</title></head><body><h1>Index of "
            ++ (url_path
                ++ (codes "</h1><ul>"
                    ++ ((if bytes_eq url_path (codes "/")
                          then []
                          else codes "<li><a href=\"../\">../</a></li>")
                        ++ (list_items base (sort_items (lossy_names entries))
                            ++ codes "</ul></body></html>"))))))

redirect_html : Bytes → Bytes
redirect_html t =
    codes "<!DOCTYPE html><html><body>Redirecting to <a href=\""
    ++ (t ++ (codes "\">" ++ (t ++ codes "</a></body></html>")))

-- The redirect of a route, before any check of the method.
unfoldable pub redirect_to : ℕ × Bytes → Response
unfolding redirect_html
redirect_to (code, target) =
    set_header (with_body code (codes "text/html; charset=utf-8") (redirect_html target))
      (codes "Location") target

module _ (fs : FileSystem) where
  open fs use {Files, read, read_dir}

  -- The configured page of the server for this code, if it can be read.
  error_page : Files → Option ServerConfig → ℕ → Option (Bytes × Bytes)
  error_page st none code = none
  error_page st (some s) code =
      and_then (lookup code s.error_pages)
        λ path. and_then (read st path) λ bytes. some (path, bytes)

  error_from : ℕ → Option (Bytes × Bytes) → Response
  error_from code none = with_body code (codes "text/html; charset=utf-8") (default_error_html code)
  error_from code (some (path, bytes)) = with_body code (mime_for path) bytes

  unfoldable pub error_response : Files → Option ServerConfig → ℕ → Response
  unfolding error_page error_from
  error_response st server code = record (error_from code (error_page st server code)) {
    keep_alive = false;
  }

  -- `autoindex`.
  unfoldable pub autoindex : Files → ServerConfig → Bytes → Bytes → Response
  unfolding listing_html
  autoindex st server dir url_path = elim (read_dir st dir) [
    | none ↦ error_response st (some server) 500
    | some entries ↦
        with_body 200 (codes "text/html; charset=utf-8") (listing_html url_path entries)
  ]
