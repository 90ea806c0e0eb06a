-- ===== src/Http/Request/Chunked/Trailer.antt =====
-- The line under the decoder's position, and the trailer section.
use servoxide.Prelude.{
  ℕ, zero, suc, ◌+◌, ◌≡◌, ◌<◌, ◌≢◌, refl, ◌∙◌, List, [], ◌∷◌, ◌++◌, some, All, arith, length,
  returns, length-append, append_assoc,
}
use servoxide.Text.{Bytes}
use servoxide.Http.Request.Types.{BodyStatus}
use servoxide.Http.Request.Search.{crlf, find_from}
use servoxide.Http.Request.Search.Laws.{index_of}
use servoxide.Http.Request.Search.Crlf.{find_from_line}
use servoxide.Http.Request.Chunked.{trailers}
use servoxide.Http.Request.Chunked.Message.{IsLine, IsTrailer, encode_trailer}

pub length_line : (pre line : Bytes) → length (pre ++ (line ++ crlf)) ≡ length pre + length line + 2
length_line pre line = omega (arith, length-append pre (line ++ crlf), length-append line crlf)

-- A line and its end moved to what has been read.
pub regroup :
    (pre line rest : Bytes) → pre ++ (line ++ (crlf ++ rest)) ≡ (pre ++ (line ++ crlf)) ++ rest
regroup pre line rest = simp append_assoc

-- Where the line behind `pre` ends, in a buffer given by an equation.
pub find_line :
    {buf : Bytes} (pre line after : Bytes)
    → buf ≡ pre ++ (line ++ (crlf ++ after))
    → IsLine line
    → find_from buf (length pre) crlf ≡ some (length pre + length line)
find_line pre line after e h = rw e (find_from_line pre line after h)

nil-IsLine : IsLine []
unfolding index_of
nil-IsLine = refl

0-lt-length : (t : Bytes) → t ≢ [] → 0 < length t
0-lt-length [] h = absurd (h refl)
0-lt-length (x ∷ t) h = omega arith

pub trailers_blank :
    (f : ℕ) (buf out : Bytes) (pos : ℕ)
    → find_from buf pos crlf ≡ some pos
    → trailers (suc f) buf out pos ≡ returns (BodyStatus.complete out (pos + 2))
unfolding trailers
trailers_blank f buf out pos h = ground arith

pub trailers_line :
    (f : ℕ) (buf out : Bytes) (pos te : ℕ)
    → find_from buf pos crlf ≡ some te
    → pos < te
    → trailers (suc f) buf out pos ≡ trailers f buf out (te + 2)
unfolding trailers
trailers_line f buf out pos te h lt = ground arith

pub trailers-encode_trailer :
    (f : ℕ) (ts : List Bytes) (buf out pre rest : Bytes)
    → length ts < f
    → All IsTrailer ts
    → buf ≡ pre ++ (encode_trailer ts ++ rest)
    → trailers f buf out (length pre)
      ≡ returns (BodyStatus.complete out (length pre + length (encode_trailer ts)))
trailers-encode_trailer zero ts buf out pre rest fuel all e = absurd (omega arith)
trailers-encode_trailer (suc f) [] buf out pre rest fuel all e =
    let same : length pre + 0 ≡ length pre = omega arith in
    trailers_blank f buf out (length pre) (rw same at (find_line pre [] rest e nil-IsLine))
trailers-encode_trailer (suc f) (t ∷ ts) buf out pre rest fuel (here, all) e =
    let after : Bytes = encode_trailer ts ++ rest in
    let e' : buf ≡ pre ++ (t ++ (crlf ++ after)) = e ∙ simp append_assoc in
    let lengths = length-append t (crlf ++ encode_trailer ts) in
    let gone : length (pre ++ (t ++ crlf)) ≡ length pre + length t + 2 = length_line pre t in
    let ih =
      trailers-encode_trailer f ts buf out (pre ++ (t ++ crlf)) rest (omega arith) all
        (e' ∙ regroup pre t after) in
    let total : length pre + length t + 2 + length (encode_trailer ts)
        ≡ length pre + length (encode_trailer (t ∷ ts)) =
      omega (arith, lengths) in
    trailers_line f buf out (length pre) (length pre + length t) (find_line pre t after e' here.0)
      (omega (arith, 0-lt-length t here.1))
    ∙ rw (gone, total) at ih
