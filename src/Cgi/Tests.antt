-- ===== src/Cgi/Tests.antt =====
-- The environment of a script, and its input, at concrete values.
use servoxide.Prelude.{
  ℕ, ◌≡◌, ◌≤◌, ◌⊎◌, refl, sym, true, false, List, [], ◌∷◌, ◌++◌, append-nil, none, some, any, arith,
  length, take, drop, returns,
}
use servoxide.Text.{Bytes, codes, bytes_eq, to_string}
use servoxide.Dict.{lookup}
use servoxide.Http.Request.Types.{Request}
use servoxide.Cgi.{
  Libc, Wait, Input, Output, vars, cstring, build_env, write_all, read_until_eof, cgi_timeout,
}
use servoxide.Cgi.Env.{has_nul, texts, IsEnvironment, build_env-IsEnvironment}
use servoxide.Cgi.Pipes.{Sink, write_all-sent}

abbrev posted : Request
unfolding codes
posted = record {
  method = codes "POST";
  path = codes "/a.py";
  query = codes "x=1";
  headers = (codes "content-type", codes "text/plain") ∷ [];
  body = codes "hello";
}

build_env-IsEnvironment_example :
    ((any has_nul (texts (codes "/www/a.py") posted) ≡ true)
      × (build_env (codes "/www/a.py") posted ≡ none))
    ⊎ ((any has_nul (texts (codes "/www/a.py") posted) ≡ false)
        × ((env : List Bytes) × (build_env (codes "/www/a.py") posted ≡ some env)
            × IsEnvironment (codes "/www/a.py") posted env))
build_env-IsEnvironment_example = build_env-IsEnvironment (codes "/www/a.py") posted

-- A NUL that was percent-encoded in the path is refused.
build_env-nul : build_env (codes "/www/a.py") (record posted { path = 47 ∷ 0 ∷ [] }) ≡ none
unfolding build_env vars cstring codes lookup bytes_eq to_string
build_env-nul = refl

-- The script takes a byte in each call, and prints a line at once.
abbrev slow : Libc
slow = record {
  Os = Bytes;
  now = λ os. (0, os);
  write = λ os fd bs. elim bs [ [] ↦ (0, os) | x ∷ xs ↦ (1, os ++ x ∷ []) ];
  poll = λ os fd ms. (Wait.ready, os);
  read =
      λ os fd. elim os [ [] ↦ (Input.bytes (codes "ok"), 1 ∷ []) | x ∷ xs ↦ (Input.eof, x ∷ xs) ];
  kill = λ os pid. os;
}

slow-Sink : Sink slow
slow-Sink = record { sent = λ os fd. os; within = within; takes = takes }
  where
    within : (os : Bytes) (fd : ℕ) (bs : Bytes) → (slow.write os fd bs).0 ≤ length bs
    within os fd [] = omega arith
    within os fd (x ∷ xs) = omega arith

    takes :
        (os : Bytes) (fd : ℕ) (bs : Bytes)
        → (slow.write os fd bs).1 ≡ os ++ take (slow.write os fd bs).0 bs
    takes os fd [] = sym (append-nil os)
    takes os fd (x ∷ xs) = refl

write_all-sent_example :
    (os : Bytes) × (k : ℕ) × (write_all slow 4 [] 5 (1 ∷ 2 ∷ 3 ∷ []) ≡ returns os)
    × (os ≡ [] ++ take k (1 ∷ 2 ∷ 3 ∷ []))
    × ((length {A = ℕ} (1 ∷ 2 ∷ 3 ∷ []) ≤ k)
        ⊎ ((os2 : Bytes) × ((slow.write os2 5 (drop k (1 ∷ 2 ∷ 3 ∷ []))).0 ≡ 0)))
unfolding slow-Sink
write_all-sent_example = write_all-sent slow slow-Sink 4 [] 5 (1 ∷ 2 ∷ 3 ∷ []) (omega arith)

read_until_eof-output :
    read_until_eof slow 2 [] 6 7 cgi_timeout ≡ returns (Output.ok (codes "ok"), 1 ∷ [])
unfolding read_until_eof codes
read_until_eof-output = refl
