-- ===== src/Http/Status.antt =====
-- lc/src/http/mod.rs: reason phrases and the keep-alive decision.
use servoxide.Prelude.{ℕ, Bool, not, Option, none, some, ◌==◌, if◌then◌else◌, option_map}
use servoxide.Text.{Bytes, bytes_eq, codes, to_ascii_lowercase}

unfoldable pub reason_phrase : ℕ → Bytes
reason_phrase code =
    if code == 200
    then codes "OK"
    else if code == 201
    then codes "Created"
    else if code == 204
    then codes "No Content"
    else if code == 301
    then codes "Moved Permanently"
    else if code == 302
    then codes "Found"
    else if code == 400
    then codes "Bad Request"
    else if code == 403
    then codes "Forbidden"
    else if code == 404
    then codes "Not Found"
    else if code == 405
    then codes "Method Not Allowed"
    else if code == 408
    then codes "Request Timeout"
    else if code == 413
    then codes "Payload Too Large"
    else if code == 500
    then codes "Internal Server Error"
    else if code == 501
    then codes "Not Implemented"
    else codes "Error"

-- `conn.as_deref() == Some(word)`.
option_is : Option Bytes → Bytes → Bool
option_is none word = Bool.false
option_is (some c) word = bytes_eq c word

unfoldable pub wants_keep_alive : Bytes → Option Bytes → Bool
unfolding option_is
wants_keep_alive version connection =
    let conn = option_map to_ascii_lowercase connection in
    if bytes_eq version (codes "HTTP/1.1")
    then not (option_is conn (codes "close"))
    else option_is conn (codes "keep-alive")
