-- ===== src/Cgi/Env.antt =====
-- The environment that cgi/mod.rs hands to a script, as the script reads it.
use servoxide.Prelude.{
  ℕ, zero, suc, ◌+◌, ◌/◌, ◌%◌, ◌≡◌, ◌⊎◌, inl, inr, refl, ◌∙◌, Bool, true, false, List, [], ◌∷◌, map,
  ◌||◌, Option, none, some, any, Bool-cases, ◌==◌, ltb, length, if◌then◌else◌, arith,
}
use servoxide.Text.{Bytes, codes, to_string, digits_onto}
use servoxide.Dict.{lookup, text_eq}
use servoxide.Http.Request.Types.{Request}
use servoxide.Cgi.{cstring, content_type, vars, assign, cstrings, build_env}

abbrev pub has_nul : Bytes → Bool
has_nul s = any (λ b. b == 0) s

-- `getenv`: what stands behind the name and `=` in the first text that begins with them.
value_of : Bytes → Bytes → Option Bytes
value_of [] (c ∷ s) = if c == b'=' then some s else none
value_of [] [] = none
value_of (k ∷ name) [] = none
value_of (k ∷ name) (c ∷ s) = let rest = value_of name s in if c == k then rest else none

pub getenv : Bytes → List Bytes → Option Bytes
unfolding value_of
getenv name [] = none
getenv name (s ∷ env) =
    let rest = getenv name env in elim (value_of name s) [ none ↦ rest | some v ↦ some v ]

-- What the variables of a script hold; there is a content type exactly if the request gives one.
pub record IsEnvironment (script : Bytes) (req : Request) (env : List Bytes) : Type 0 where
  pub interface : getenv (codes "GATEWAY_INTERFACE") env ≡ some (codes "CGI/1.1")
  pub protocol : getenv (codes "SERVER_PROTOCOL") env ≡ some (codes "HTTP/1.1")
  pub software : getenv (codes "SERVER_SOFTWARE") env ≡ some (codes "localhost")
  pub request_method : getenv (codes "REQUEST_METHOD") env ≡ some req.method
  pub query_string : getenv (codes "QUERY_STRING") env ≡ some req.query
  pub script_name : getenv (codes "SCRIPT_NAME") env ≡ some req.path
  pub path_info : getenv (codes "PATH_INFO") env ≡ some script
  pub path_translated : getenv (codes "PATH_TRANSLATED") env ≡ some script
  pub redirect_status : getenv (codes "REDIRECT_STATUS") env ≡ some (codes "200")
  pub content_length : getenv (codes "CONTENT_LENGTH") env ≡ some (to_string (length req.body))
  pub type_is : getenv (codes "CONTENT_TYPE") env ≡ lookup (codes "content-type") req.headers

-- The texts of the request and the script that may hold a NUL byte.
abbrev pub given : Option Bytes → List Bytes
given none = []
given (some s) = s ∷ []

abbrev pub texts : Bytes → Request → List Bytes
texts script req =
    req.method ∷ req.query ∷ req.path ∷ script ∷ given (lookup (codes "content-type") req.headers)

digits_onto-has_nul :
    (f n : ℕ) (out : Bytes) → has_nul out ≡ false → has_nul (digits_onto f n out) ≡ false
unfolding digits_onto
digits_onto-has_nul zero n out clean = clean
digits_onto-has_nul (suc f) n out clean = elim (Bool-cases (ltb n 10)) [
  | inl small ↦ rw (small, clean) (ground arith)
  | inr large ↦
      rw large (digits_onto-has_nul f (n / 10) ((b'0' + n % 10) ∷ out) (rw clean (ground arith)))
]

to_string-has_nul : (n : ℕ) → has_nul (to_string n) ≡ false
unfolding to_string
to_string-has_nul n = digits_onto-has_nul (suc n) n [] refl

cstrings_lem :
    (vs : List (Bytes × Bytes))
    → cstrings vs ≡ (if any has_nul (map assign vs) then none else some (map assign vs))
unfolding cstrings cstring
cstrings_lem [] = refl
cstrings_lem (v ∷ vs) = elim (Bool-cases (has_nul (assign v))) [
  | inl nul ↦ rw nul refl
  | inr clean ↦
      rw (clean, cstrings_lem vs)
        (elim (Bool-cases (any has_nul (map assign vs))) [
          | inl nul ↦ rw nul refl
          | inr rest ↦ rw rest refl
        ])
]

content_type-has_nul :
    (ct : Option Bytes) → any has_nul (map assign (content_type ct)) ≡ any has_nul (given ct)
unfolding content_type codes
content_type-has_nul none = refl
content_type-has_nul (some s) = refl

once :
    (a b c d t : Bool)
    → (a || (b || (c || (d || (d || (false || t)))))) ≡ (a || (b || (c || (d || t))))
once true b c d t = refl
once false true c d t = refl
once false false true d t = refl
once false false false true t = refl
once false false false false t = refl

vars-has_nul :
    (script : Bytes) (req : Request)
    → any has_nul (map assign (vars script req)) ≡ any has_nul (texts script req)
unfolding vars codes
vars-has_nul script req =
    let ct = lookup (codes "content-type") req.headers in
    rw (to_string-has_nul (length req.body), content_type-has_nul ct)
      (once (has_nul req.method) (has_nul req.query) (has_nul req.path) (has_nul script)
        (any has_nul (given ct)))

vars-IsEnvironment :
    (script : Bytes) (req : Request) → IsEnvironment script req (map assign (vars script req))
unfolding vars codes getenv content_type
vars-IsEnvironment script req = record {
  interface = refl;
  protocol = refl;
  software = refl;
  request_method = refl;
  query_string = refl;
  script_name = refl;
  path_info = refl;
  path_translated = refl;
  redirect_status = refl;
  content_length = refl;
  type_is = go (lookup (codes "content-type") req.headers);
}
  where
    go : (ct : Option Bytes) → getenv (codes "CONTENT_TYPE") (map assign (content_type ct)) ≡ ct
    go none = refl
    go (some s) = refl

-- A script is started only if none of the method, the query, the path, the script's own path and
-- the content type has a NUL byte. It then reads these values, the length of the body and the
-- four fixed ones under the names that CGI gives them; there is a content type exactly if the
-- request has one.
pub build_env-IsEnvironment :
    (script : Bytes) (req : Request)
    → ((any has_nul (texts script req) ≡ true) × (build_env script req ≡ none))
      ⊎ ((any has_nul (texts script req) ≡ false)
          × ((env : List Bytes) × (build_env script req ≡ some env) × IsEnvironment script req env))
unfolding build_env
build_env-IsEnvironment script req =
    let env = map assign (vars script req) in
    let same = vars-has_nul script req in
    elim (Bool-cases (any has_nul (texts script req))) [
      | inl nul ↦ inl (nul, cstrings_lem (vars script req) ∙ rw (same, nul) refl)
      | inr clean ↦ inr (
        clean,
        (
          env,
          cstrings_lem (vars script req) ∙ rw (same, clean) refl,
          vars-IsEnvironment script req,
        ),
      )
    ]
