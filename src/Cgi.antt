-- ===== src/Cgi.antt =====
-- lc/src/cgi/mod.rs: the environment of a script, and the loops on its pipes.
pub mod Env
pub mod Pipes
mod Tests
use servoxide.Prelude.{
  ℕ, zero, suc, ◌+◌, ◌-◌, ◌*◌, ◌/◌, ◌^◌, Bool, true, false, List, [], ◌∷◌, ◌++◌, Option, none, some,
  and_then, option_map, any, ◌==◌, leb, min, is_empty, length, drop, if◌then◌else◌, Outcome,
  returns, panics, out_of_fuel,
}
use servoxide.Text.{Bytes, codes, to_string}
use servoxide.Dict.{lookup, text_eq}
use servoxide.Http.Request.Types.{Request}

-- `CString::new`, which refuses a NUL byte.
unfoldable pub cstring : Bytes → Option Bytes
cstring s = if any (λ b. b == 0) s then none else some s

-- The variables, from the script's path as text.
content_type : Option Bytes → List (Bytes × Bytes)
content_type none = []
content_type (some ct) = (codes "CONTENT_TYPE", ct) ∷ []

unfoldable pub vars : Bytes → Request → List (Bytes × Bytes)
unfolding content_type
vars script req =
    (codes "GATEWAY_INTERFACE", codes "CGI/1.1")
    ∷ (codes "SERVER_PROTOCOL", codes "HTTP/1.1")
    ∷ (codes "SERVER_SOFTWARE", codes "localhost")
    ∷ (codes "REQUEST_METHOD", req.method)
    ∷ (codes "QUERY_STRING", req.query)
    ∷ (codes "SCRIPT_NAME", req.path)
    ∷ (codes "PATH_INFO", script)
    ∷ (codes "PATH_TRANSLATED", script)
    ∷ (codes "REDIRECT_STATUS", codes "200")
    ∷ (codes "CONTENT_LENGTH", to_string (length req.body))
    ∷ content_type (lookup (codes "content-type") req.headers)

-- `{k}={v}`.
abbrev pub assign : Bytes × Bytes → Bytes
assign (k, v) = k ++ (b'=' ∷ v)

-- The loop stops at the first text that is refused.
unfoldable pub cstrings : List (Bytes × Bytes) → Option (List Bytes)
unfolding cstring
cstrings [] = some []
cstrings (v ∷ vs) =
    let rest = cstrings vs in and_then (cstring (assign v)) (λ c. option_map (λ cs. c ∷ cs) rest)

unfoldable pub build_env : Bytes → Request → Option (List Bytes)
unfolding cstrings vars
build_env script req = cstrings (vars script req)

abbrev pub cgi_timeout : ℕ
cgi_timeout = 10 * 1000000000

-- `poll` of one descriptor, and `read`: `EINTR` is told from other errors.
pub data Wait : Type 0 where
  ready expired interrupted failed : Wait

pub data Input : Type 0 where
  bytes : Bytes → Input
  eof interrupted failed : Input

-- What `read_until_eof` gives: the output, or one of its errors.
pub data Output : Type 0 where
  ok : Bytes → Output
  timed_out failed : Output

-- The calls of `libc`, and the clock in nanoseconds. A `write` that fails writes nothing.
pub record Libc : Type 1 where
  pub Os : Type 0
  pub now : Os → ℕ × Os
  pub write : Os → ℕ → Bytes → ℕ × Os
  pub poll : Os → ℕ → ℕ → Wait × Os
  pub read : Os → ℕ → Input × Os
  pub kill : Os → ℕ → Os

module _ (c : Libc) where
  -- A unit of fuel for each call; `&data[n..]` panics behind the end.
  unfoldable pub write_all : ℕ → c.Os → ℕ → Bytes → Outcome c.Os
  write_all zero os fd data' = if is_empty data' then returns os else out_of_fuel
  write_all (suc fuel) os fd data' =
      let (n, os') = c.write os fd data' in
      let rest = write_all fuel os' fd (drop n data') in
      if is_empty data'
      then returns os
      else if n == 0
      then returns os'
      else if leb n (length data')
      then rest
      else panics

  -- The loop, with a unit of fuel for each turn.
  unfoldable pub read_loop : ℕ → c.Os → ℕ → ℕ → ℕ → Bytes → Outcome (Output × c.Os)
  read_loop zero os fd pid deadline out = out_of_fuel
  read_loop (suc fuel) os fd pid deadline out =
      let (t, os1) = c.now os in
      let remaining = deadline - t in
      let (w, os2) = c.poll os1 fd (min (remaining / 1000000) (2 ^ 31 - 1)) in
      let (r, os3) = c.read os2 fd in
      let again = read_loop fuel os2 fd pid deadline out in
      let after = λ (o : Bytes). read_loop fuel os3 fd pid deadline o in
      if remaining == 0 then returns (Output.timed_out, c.kill os1 pid) else elim w [
        | Wait.failed ↦ returns (Output.failed, os2)
        | Wait.interrupted ↦ again
        | Wait.expired ↦ returns (Output.timed_out, c.kill os2 pid)
        | Wait.ready ↦ elim r [
          | Input.bytes bs ↦ after (out ++ bs)
          | Input.eof ↦ returns (Output.ok out, os3)
          | Input.interrupted ↦ after out
          | Input.failed ↦ returns (Output.failed, os3)
        ]
      ]

  unfoldable pub read_until_eof : ℕ → c.Os → ℕ → ℕ → ℕ → Outcome (Output × c.Os)
  unfolding read_loop
  read_until_eof fuel os fd pid timeout =
      let (t, os1) = c.now os in read_loop fuel os1 fd pid (t + timeout) []
