-- ===== src/Http/Response/Tests.antt =====
-- The framing of a concrete response.
use servoxide.Prelude.{ℕ, ◌≡◌, ◌+◌, refl, [], ◌∷◌, some, true, take, drop}
use servoxide.Text.{codes, split_crlf, starts_with}
use servoxide.Http.Request.Search.{crlf2}
use servoxide.Http.Request.Search.Laws.{index_of}
use servoxide.Http.Response.{Response, into_bytes, status_line}
use servoxide.Http.Response.Framing.{IsClean, field_lines, into_bytes-framing}

abbrev hello : Response
hello = record {
  status = 200;
  headers = (codes "Content-Type", codes "text/plain") ∷ [];
  body = codes "hello\r\n\r\n";
  keep_alive = true;
}

hello-IsClean : IsClean hello
unfolding index_of starts_with codes
hello-IsClean = (refl, tt)

into_bytes-framing_example :
    (i : ℕ) × (index_of crlf2 (into_bytes hello) ≡ some i)
    × (split_crlf (take i (into_bytes hello)) ≡ status_line hello.status ∷ field_lines hello)
    × (drop (i + 4) (into_bytes hello) ≡ hello.body)
into_bytes-framing_example = into_bytes-framing hello hello-IsClean
