-- ===== src/Http/Response/Framing.antt =====
-- The wire format of a response, as lines.
use servoxide.Prelude.{
  ℕ, ◌+◌, ◌≡◌, ◌≢◌, refl, ◌∙◌, Bool, true, false, List, [], ◌∷◌, ◌++◌, some, All, arith, length,
  map, append_assoc, drop, take, zero, suc, drop-append_add, take-append_length, ◌/◌, ◌%◌,
}
use servoxide.Text.{Bytes, codes, to_string, split_crlf, digits_onto}
use servoxide.Http.Request.Search.{crlf2}
use servoxide.Http.Request.Search.Laws.{index_of}
use servoxide.Http.Request.Search.Lines.{
  IsLine, IsTrailer, NoCr, NoCr-IsLine, NoCr-append, encode_trailer, join_lines,
  encode_trailer-join_lines, index_of-crlf2-join_lines, split_crlf-join_lines,
}
use servoxide.Http.Status.{reason_phrase}
use servoxide.Http.Response.{
  Response, header_lines, status_line, length_line, connection_line, into_bytes,
}

abbrev pub header_line : Bytes × Bytes → Bytes
header_line h = h.0 ++ (codes ": " ++ h.1)

-- The lines that a client should read after the status line.
abbrev pub field_lines : Response → List Bytes
field_lines r =
    map header_line r.headers ++ length_line (length r.body) ∷ connection_line r.keep_alive ∷ []

header_lines-encode_trailer :
    (hs : List (Bytes × Bytes)) (ls : List Bytes)
    → header_lines hs ++ encode_trailer ls ≡ encode_trailer (map header_line hs ++ ls)
unfolding header_lines
header_lines-encode_trailer [] ls = refl
header_lines-encode_trailer ((n, v) ∷ hs) ls =
    simp (append_assoc, header_lines-encode_trailer hs ls)

into_bytes-lines :
    (r : Response) → into_bytes r ≡ encode_trailer (status_line r.status ∷ field_lines r) ++ r.body
unfolding into_bytes
into_bytes-lines r =
    let ends : List Bytes = length_line (length r.body) ∷ connection_line r.keep_alive ∷ [] in
    rw (← header_lines-encode_trailer r.headers ends) (simp append_assoc)

digits_onto-NoCr : (f n : ℕ) (out : Bytes) → NoCr out → NoCr (digits_onto f n out)
unfolding digits_onto
digits_onto-NoCr zero n out h = h
digits_onto-NoCr (suc f) n out h =
    ground (arith, digits_onto-NoCr f (n / 10) ((b'0' + n % 10) ∷ out))

to_string-NoCr : (n : ℕ) → NoCr (to_string n)
unfolding to_string
to_string-NoCr n = digits_onto-NoCr (suc n) n [] refl

reason_phrase-NoCr : (n : ℕ) → NoCr (reason_phrase n)
unfolding reason_phrase codes
reason_phrase-NoCr n = ground arith

length_line-IsTrailer : (n : ℕ) → IsTrailer (length_line n)
unfolding length_line codes
length_line-IsTrailer n = (
  NoCr-IsLine _ (NoCr-append (codes "Content-Length: ") (to_string n) refl (to_string-NoCr n)),
  λ e. cc,
)

connection_line-IsTrailer : (k : Bool) → IsTrailer (connection_line k)
unfolding connection_line codes
connection_line-IsTrailer true = (NoCr-IsLine (connection_line true) refl, λ e. cc)
connection_line-IsTrailer false = (NoCr-IsLine (connection_line false) refl, λ e. cc)

status_line-IsTrailer : (n : ℕ) → IsTrailer (status_line n)
unfolding status_line codes
status_line-IsTrailer n = (
  NoCr-IsLine _ (
      NoCr-append (codes "HTTP/1.1 ") (to_string n ++ (codes " " ++ reason_phrase n)) refl (
        NoCr-append (to_string n) (codes " " ++ reason_phrase n) (to_string-NoCr n)
          (NoCr-append (codes " ") (reason_phrase n) refl (reason_phrase-NoCr n)))),
  λ e. cc,
)

header_line-ne-nil : (n v : Bytes) → header_line (n, v) ≢ []
unfolding codes
header_line-ne-nil [] v e = cc
header_line-ne-nil (x ∷ n) v e = cc

-- No header carries a line end into the head.
abbrev pub IsClean : Response → Type 0
IsClean r = All (λ (h : Bytes × Bytes). IsLine (header_line h)) r.headers

fields-IsTrailer :
    (hs : List (Bytes × Bytes)) (ls : List Bytes)
    → All (λ (h : Bytes × Bytes). IsLine (header_line h)) hs
    → All IsTrailer ls
    → All IsTrailer (map header_line hs ++ ls)
fields-IsTrailer [] ls h all = all
fields-IsTrailer ((n, v) ∷ hs) ls (here, rest) all =
    ((here, header_line-ne-nil n v), fields-IsTrailer hs ls rest all)

-- Where the headers set by hand carry no line end, the first blank line of a response stands
-- between head and body: the head is the status line, each such header in order, one
-- Content-Length that states the length of the body and one Connection, and what follows is the
-- body, untouched.
pub into_bytes-framing :
    (r : Response)
    → IsClean r
    → (i : ℕ) × (index_of crlf2 (into_bytes r) ≡ some i)
      × (split_crlf (take i (into_bytes r)) ≡ status_line r.status ∷ field_lines r)
      × (drop (i + 4) (into_bytes r) ≡ r.body)
into_bytes-framing r clean =
    let first = status_line-IsTrailer r.status in
    let fields =
      fields-IsTrailer r.headers _ clean
        (length_line-IsTrailer (length r.body), (connection_line-IsTrailer r.keep_alive, tt)) in
    let head : Bytes = join_lines (status_line r.status) (field_lines r) in
    let e : into_bytes r ≡ head ++ (crlf2 ++ r.body) =
      into_bytes-lines r
      ∙ encode_trailer-join_lines (status_line r.status) (field_lines r) r.body in
    (
      length head,
      rw e (index_of-crlf2-join_lines (status_line r.status) (field_lines r) r.body first fields),
      rw (e, take-append_length head (crlf2 ++ r.body))
          (split_crlf-join_lines (status_line r.status) (field_lines r) first.0 fields),
      rw (e, drop-append_add head (crlf2 ++ r.body) 4),
    )
