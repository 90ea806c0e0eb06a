-- ===== src/Http/Request/Chunked/Overflow.antt =====
-- A chunk size near `2 ^ 64`: the sums of the guards wrap, and the slice behind them panics.
use servoxide.Prelude.{
  ℕ, suc, ◌+◌, ◌-◌, ◌%◌, ◌≡◌, ◌≤◌, ◌<◌, ◌^◌, refl, ap, ◌∙◌, [], ◌∷◌, ◌++◌, some, arith, length,
  panics, length-append, append_assoc, usize_mod,
}
use servoxide.Text.{Bytes, slice}
use servoxide.Http.Request.Search.{crlf}
use servoxide.Http.Request.Search.Crlf.{slice-append_length}
use servoxide.Http.Request.Chunked.{chunk_size, chunk_data, decode_chunked, stop}
use servoxide.Http.Request.Chunked.Message.{Chunk, IsLine, IsChunk}
use servoxide.Http.Request.Chunked.Trailer.{length_line, find_line}
use servoxide.Http.Request.Chunked.Lines.{chunk_size-lt}
use servoxide.Http.Request.Chunked.RoundTrip.{round-chunk}
use servoxide.Http.Request.Chunked.Steps.{round_size, chunks_stop, chunks_next}

chunk_data-panics :
    (max_body pos size : ℕ) (buf out : Bytes)
    → length buf < 2 ^ 63
    → pos < length buf
    → length out ≤ pos
    → size < usize_mod
    → usize_mod ≤ length out + size
    → length out ≤ max_body
    → chunk_data max_body buf out pos size ≡ stop panics
unfolding chunk_data
chunk_data-panics max_body pos size buf out small at short word huge within =
    let w1 : (pos + size) % usize_mod ≡ pos + size - usize_mod = omega arith in
    let w2 : (pos + size - usize_mod + 2) % usize_mod ≡ pos + size - usize_mod + 2 = omega arith in
    let w3 : (length out + size) % usize_mod ≡ length out + size - usize_mod = omega arith in
    rw (w1, w2, w3) (ground arith)

-- Behind a first chunk within the limit, a chunk whose stated size, added to what has been read,
-- reaches 2^64 makes the decoder panic as soon as one byte follows its size line, in a buffer
-- shorter than 2^63 bytes.
pub decode_chunked-panics :
    (c : Chunk) (line : Bytes) (size next_byte : ℕ) (more : Bytes) (max_body : ℕ)
    → IsChunk c
    → IsLine line
    → chunk_size line ≡ some size
    → usize_mod ≤ length c.content + size
    → length c.content ≤ max_body
    → length (c.line ++ (crlf ++ (c.content ++ (crlf ++ (line ++ (crlf ++ next_byte ∷ more))))))
      < 2 ^ 63
    → decode_chunked
        (c.line ++ (crlf ++ (c.content ++ (crlf ++ (line ++ (crlf ++ next_byte ∷ more))))))
        max_body
      ≡ panics
unfolding decode_chunked
decode_chunked-panics c line size next_byte more max_body is_chunk is_line sized huge within small =
    let w : Bytes = line ++ (crlf ++ next_byte ∷ more) in
    let buf : Bytes = c.line ++ (crlf ++ (c.content ++ (crlf ++ w))) in
    let first =
      round-chunk max_body buf [] small [] [] w c is_chunk refl (omega arith) (omega arith) in
    let pre : Bytes = (c.line ++ crlf) ++ (c.content ++ crlf) in
    let e : buf ≡ pre ++ w = simp append_assoc in
    let at : length pre ≡ 0 + length c.line + 2 + length c.content + 2 =
      omega (arith, length_line [] c.line, length_line (c.line ++ crlf) c.content) in
    let found = find_line pre line (next_byte ∷ more) e is_line in
    let cut : slice buf (length pre) (length pre + length line) ≡ line =
      rw e (slice-append_length pre line (crlf ++ next_byte ∷ more)) in
    let total : length pre + length line + 2 < length buf =
      omega
        (arith, ap length e, length-append pre w, length-append line (crlf ++ next_byte ∷ more)) in
    let parts = length-append (c.line ++ crlf) (c.content ++ crlf) in
    let short : length c.content ≤ length pre = omega (arith, at) in
    let positive : 0 < size = omega (arith, small) in
    let second =
      round_size max_body buf c.content (length pre) _ size found (rw cut sized) positive in
    let third =
      chunk_data-panics max_body (length pre + length line + 2) size buf c.content small total
        (omega (arith, short)) (chunk_size-lt line size sized) huge within in
    let fuel : length buf ≡ suc (length buf - 1) = omega arith in
    let stops = chunks_stop (length buf - 1) max_body buf c.content (length pre) (second ∙ third) in
    chunks_next (length buf) max_body buf [] 0 first ∙ rw (← at, fuel) stops
