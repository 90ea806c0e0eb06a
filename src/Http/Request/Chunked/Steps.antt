-- ===== src/Http/Request/Chunked/Steps.antt =====
-- The steps of the chunk loop, and the sizes of what it reads.
use servoxide.Prelude.{
  ℕ, suc, ◌+◌, ◌≡◌, ◌≤◌, ◌<◌, List, [], ◌∷◌, ◌++◌, some, arith, length, Outcome, length-append,
}
use servoxide.Text.{Bytes, slice}
use servoxide.Http.Request.Types.{BodyStatus}
use servoxide.Http.Request.Search.{crlf, find_from}
use servoxide.Http.Request.Chunked.{trailers, chunk_size, chunk_data, round, chunks, stop, next}
use servoxide.Http.Request.Chunked.Message.{Chunk, encode_trailer, encode_parts}

pub round_size :
    (max_body : ℕ) (buf out : Bytes) (pos line_end n : ℕ)
    → find_from buf pos crlf ≡ some line_end
    → chunk_size (slice buf pos line_end) ≡ some n
    → 0 < n
    → round max_body buf out pos ≡ chunk_data max_body buf out (line_end + 2) n
unfolding round
round_size max_body buf out pos line_end n found size h = rw (found, round, size) (ground arith)

pub round_last :
    (max_body : ℕ) (buf out : Bytes) (pos line_end : ℕ)
    → find_from buf pos crlf ≡ some line_end
    → chunk_size (slice buf pos line_end) ≡ some 0
    → round max_body buf out pos ≡ stop (trailers (suc (length buf)) buf out (line_end + 2))
unfolding round
round_last max_body buf out pos line_end found size = rw (found, round, size)

pub chunks_stop :
    (f max_body : ℕ) (buf out : Bytes) (pos : ℕ) {r : Outcome BodyStatus}
    → round max_body buf out pos ≡ stop r
    → chunks (suc f) max_body buf out pos ≡ r
unfolding chunks
chunks_stop f max_body buf out pos h = rw (h, chunks)

pub chunks_next :
    (f max_body : ℕ) (buf out : Bytes) (pos : ℕ) {out' : Bytes} {pos' : ℕ}
    → round max_body buf out pos ≡ next out' pos'
    → chunks (suc f) max_body buf out pos ≡ chunks f max_body buf out' pos'
unfolding chunks
chunks_next f max_body buf out pos h = rw (h, chunks)

pub length-encode_trailer : (ts : List Bytes) → length ts < length (encode_trailer ts)
length-encode_trailer [] = omega arith
length-encode_trailer (t ∷ ts) =
    omega (arith, length-encode_trailer ts, length-append t (crlf ++ encode_trailer ts))

pub length-encode_parts :
    (cs : List Chunk) (tail : Bytes) → length cs + length tail ≤ length (encode_parts cs tail)
length-encode_parts [] tail = omega arith
length-encode_parts (c ∷ cs) tail =
    let rest = crlf ++ encode_parts cs tail in
    omega (
      arith,
      length-encode_parts cs tail,
      length-append c.line (crlf ++ (c.content ++ rest)),
      length-append c.content rest,
    )
