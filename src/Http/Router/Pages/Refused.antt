-- ===== src/Http/Router/Pages/Refused.antt =====
-- A request that is refused: an error status, and the files as they were.
use servoxide.Prelude.{ℕ, ◌≡◌, refl, false, Option, none, some, ltb}
use servoxide.Text.{Bytes}
use servoxide.Config.Types.{ServerConfig}
use servoxide.Http.Response.{Response, with_body}
use servoxide.Http.Router.Files.{FileSystem}
use servoxide.Http.Router.Pages.{error_response, error_page, error_from}

abbrev pub IsRefused : (fs : FileSystem) → fs.Files → Response × fs.Files → Type 0
IsRefused fs st answer = (ltb (answer.0).status 400 ≡ false) × (answer.1 ≡ st)

error_from-status :
    (fs : FileSystem) (code : ℕ) (page : Option (Bytes × Bytes))
    → (error_from fs code page).status ≡ code
unfolding error_from with_body
error_from-status fs code none = refl
error_from-status fs code (some (path, bytes)) = refl

-- An error page keeps the code it was asked for.
error_response-status :
    (fs : FileSystem) (st : fs.Files) (server : Option ServerConfig) (code : ℕ)
    → (error_response fs st server code).status ≡ code
unfolding error_response
error_response-status fs st server code = error_from-status fs code (error_page fs st server code)

pub error-IsRefused :
    (fs : FileSystem) (st : fs.Files) (server : Option ServerConfig) (code : ℕ)
    → ltb code 400 ≡ false
    → IsRefused fs st (error_response fs st server code, st)
error-IsRefused fs st server code big = (rw (error_response-status fs st server code) big, refl)
