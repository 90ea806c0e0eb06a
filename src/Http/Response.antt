-- ===== src/Http/Response.antt =====
-- lc/src/http/response.rs.
mod Tests
pub mod Framing
use servoxide.Prelude.{ℕ, Bool, true, List, [], ◌∷◌, ◌++◌, if◌then◌else◌, length}
use servoxide.Text.{Bytes, codes, to_string}
use servoxide.Http.Request.Search.{crlf}
use servoxide.Http.Status.{reason_phrase}

pub record Response : Type 0 where
  pub status : ℕ
  pub headers : List (Bytes × Bytes)
  pub body : Bytes
  pub keep_alive : Bool

abbrev pub new : ℕ → Response
new status = record { status = status; headers = []; body = []; keep_alive = true }

unfoldable pub set_header : Response → Bytes → Bytes → Response
set_header r name value = record r { headers = r.headers ++ (name, value) ∷ [] }

unfoldable pub with_body : ℕ → Bytes → Bytes → Response
unfolding set_header
with_body status content_type body =
    record (set_header (new status) (codes "Content-Type") content_type) { body = body }

-- One line for each header set by hand.
unfoldable pub header_lines : List (Bytes × Bytes) → Bytes
header_lines [] = []
header_lines ((name, value) ∷ hs) = name ++ (codes ": " ++ (value ++ (crlf ++ header_lines hs)))

unfoldable pub status_line : ℕ → Bytes
status_line status = codes "HTTP/1.1 " ++ (to_string status ++ (codes " " ++ reason_phrase status))

unfoldable pub length_line : ℕ → Bytes
length_line n = codes "Content-Length: " ++ to_string n

unfoldable pub connection_line : Bool → Bytes
connection_line keep = codes "Connection: " ++ (if keep then codes "keep-alive" else codes "close")

unfoldable pub into_bytes : Response → Bytes
unfolding header_lines
into_bytes r =
    status_line r.status
    ++ (crlf
        ++ (header_lines r.headers
            ++ (length_line (length r.body)
                ++ (crlf ++ (connection_line r.keep_alive ++ (crlf ++ (crlf ++ r.body)))))))
