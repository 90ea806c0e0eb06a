-- ===== src/Http/Request/Chunked/RoundTrip.antt =====
-- The decoder reads back every well-formed chunked message, whatever stands behind it.
use servoxide.Prelude.{
  ℕ, zero, suc, ◌+◌, ◌≡◌, ◌≤◌, ◌<◌, ◌^◌, refl, sym, ap, ◌∙◌, List, [], ◌∷◌, ◌++◌, some, All, arith,
  length, returns, length-append, append_assoc, append-nil,
}
use servoxide.Text.{Bytes, slice}
use servoxide.Http.Request.Types.{BodyStatus}
use servoxide.Http.Request.Search.{crlf}
use servoxide.Http.Request.Search.Crlf.{slice-append_length}
use servoxide.Http.Request.Chunked.{chunk_size, round, chunks, decode_chunked, next}
use servoxide.Http.Request.Chunked.SizeLine.{IsSizeLine-chunk_size}
use servoxide.Http.Request.Chunked.Message.{
  Chunk, Message, IsLine, IsChunk, IsTrailer, IsMessage, encode_trailer, encode_parts, encode_end,
  encode, contents,
}
use servoxide.Http.Request.Chunked.Data.{chunk_data-next}
use servoxide.Http.Request.Chunked.Trailer.{
  length_line, regroup, find_line, trailers-encode_trailer,
}
use servoxide.Http.Request.Chunked.Steps.{
  round_size, round_last, chunks_stop, chunks_next, length-encode_trailer, length-encode_parts,
}

slice_end :
    (p content w : Bytes)
    → slice
        (p ++ (content ++ (crlf ++ w)))
        (length p + length content)
        (length p + length content + 2)
      ≡ crlf
slice_end p content w =
    let l : length p + length content ≡ length (p ++ content) = sym (length-append p content) in
    let assoc : p ++ (content ++ (crlf ++ w)) ≡ (p ++ content) ++ (crlf ++ w) = simp append_assoc in
    rw (l, assoc) (slice-append_length (p ++ content) crlf w)

module _ (max_body : ℕ) (buf rest : Bytes) (small : length buf < 2 ^ 63) where
  -- The last chunk and the trailers end the message.
  chunks_end :
      (f : ℕ) (out pre last : Bytes) (ts : List Bytes)
      → IsLine last
      → chunk_size last ≡ some 0
      → All IsTrailer ts
      → buf ≡ pre ++ ((last ++ (crlf ++ encode_trailer ts)) ++ rest)
      → chunks (suc f) max_body buf out (length pre)
        ≡ returns
            (BodyStatus.complete out (length pre + length (last ++ (crlf ++ encode_trailer ts))))
  chunks_end f out pre last ts line size all e =
      let after : Bytes = encode_trailer ts ++ rest in
      let e' : buf ≡ pre ++ (last ++ (crlf ++ after)) = e ∙ simp append_assoc in
      let found = find_line pre last after e' line in
      let cut : slice buf (length pre) (length pre + length last) ≡ last =
        rw e' (slice-append_length pre last (crlf ++ after)) in
      let gone : length (pre ++ (last ++ crlf)) ≡ length pre + length last + 2 =
        length_line pre last in
      let fuel : length ts < suc (length buf) = omega (
        arith,
        length-encode_trailer ts,
        ap length e',
        length-append pre (last ++ (crlf ++ after)),
        length-append last (crlf ++ after),
        length-append (encode_trailer ts) rest,
      ) in
      let read =
        trailers-encode_trailer (suc (length buf)) ts buf out (pre ++ (last ++ crlf)) rest fuel all
          (e' ∙ regroup pre last after) in
      let total : length pre + length last + 2 + length (encode_trailer ts)
          ≡ length pre + length (last ++ (crlf ++ encode_trailer ts)) =
        omega (arith, length-append last (crlf ++ encode_trailer ts)) in
      chunks_stop f max_body buf out (length pre)
        (round_last max_body buf out (length pre) _ found (rw cut size))
      ∙ rw (gone, total) at read

  -- A chunk is passed over, with its line and its line end.
  pub round-chunk :
      (out pre w : Bytes) (c : Chunk)
      → IsChunk c
      → buf ≡ pre ++ (c.line ++ (crlf ++ (c.content ++ (crlf ++ w))))
      → length out ≤ length pre
      → length out + length c.content ≤ max_body
      → round max_body buf out (length pre)
        ≡ next (out ++ c.content) (length pre + length c.line + 2 + length c.content + 2)
  round-chunk out pre w c (line, size_line, filled) e short within =
      let holds : length c.content ≤ length buf = omega (
        arith,
        ap length e,
        length-append pre (c.line ++ (crlf ++ (c.content ++ (crlf ++ w)))),
        length-append c.line (crlf ++ (c.content ++ (crlf ++ w))),
        length-append c.content (crlf ++ w),
      ) in
      let size =
        IsSizeLine-chunk_size c.line (length c.content) (omega (arith, holds, small)) size_line in
      let found = find_line pre c.line (c.content ++ (crlf ++ w)) e line in
      let cut : slice buf (length pre) (length pre + length c.line) ≡ c.line =
        rw e (slice-append_length pre c.line (crlf ++ (c.content ++ (crlf ++ w)))) in
      let pre2 : Bytes = pre ++ (c.line ++ crlf) in
      let at : length pre2 ≡ length pre + length c.line + 2 = length_line pre c.line in
      let e2 : buf ≡ pre2 ++ (c.content ++ (crlf ++ w)) =
        e ∙ regroup pre c.line (c.content ++ (crlf ++ w)) in
      let tail = crlf ++ (c.content ++ (crlf ++ w)) in
      let total : length pre2 + length c.content + 2 ≤ length buf = omega (
        arith,
        ap length e2,
        length-append pre2 (c.content ++ (crlf ++ w)),
        length-append c.content (crlf ++ w),
      ) in
      let content_at : slice buf (length pre2) (length pre2 + length c.content) ≡ c.content =
        rw e2 (slice-append_length pre2 c.content (crlf ++ w)) in
      let end_at : slice buf (length pre2 + length c.content) (length pre2 + length c.content + 2)
          ≡ crlf =
        rw e2 (slice_end pre2 c.content w) in
      let passed =
        chunk_data-next max_body (length pre2) (length c.content) buf out small total end_at within
          (omega arith) in
      round_size max_body buf out (length pre) _ (length c.content) found (rw cut size) filled
      ∙ rw (content_at, at) at passed

  chunks-encode :
      (f : ℕ) (cs : List Chunk) (out pre last : Bytes) (ts : List Bytes)
      → length cs ≤ f
      → All IsChunk cs
      → IsLine last
      → chunk_size last ≡ some 0
      → All IsTrailer ts
      → length out ≤ length pre
      → length out + length (contents cs) ≤ max_body
      → buf ≡ pre ++ (encode_parts cs (last ++ (crlf ++ encode_trailer ts)) ++ rest)
      → chunks (suc f) max_body buf out (length pre)
        ≡ returns (
            BodyStatus.complete
              (out ++ contents cs)
              (length pre + length (encode_parts cs (last ++ (crlf ++ encode_trailer ts)))))
  chunks-encode f [] out pre last ts fuel all line size trailer short within e =
      rw append-nil (chunks_end f out pre last ts line size trailer e)
  chunks-encode zero (c ∷ cs) out pre last ts fuel all line size trailer short within e =
      absurd (omega arith)
  chunks-encode (suc f) (c ∷ cs) out pre last ts fuel (here, all) line size trailer short within e =
      let tail : Bytes = last ++ (crlf ++ encode_trailer ts) in
      let w : Bytes = encode_parts cs tail ++ rest in
      let e' : buf ≡ pre ++ (c.line ++ (crlf ++ (c.content ++ (crlf ++ w)))) =
        e ∙ simp append_assoc in
      let pre' : Bytes = (pre ++ (c.line ++ crlf)) ++ (c.content ++ crlf) in
      let at : length pre' ≡ length pre + length c.line + 2 + length c.content + 2 =
        omega (arith, length_line pre c.line, length_line (pre ++ (c.line ++ crlf)) c.content) in
      let sizes = length-append c.content (contents cs) in
      let ih =
        chunks-encode f cs (out ++ c.content) pre' last ts (omega arith) all line size trailer
          (omega (arith, at, length-append out c.content))
          (omega (arith, sizes, length-append out c.content)) (e' ∙ simp append_assoc) in
      let total : length pre
            + length c.line
            + 2
            + length c.content
            + 2
            + length (encode_parts cs tail)
          ≡ length pre + length (encode_parts (c ∷ cs) tail) =
        omega (
          arith,
          length-append c.line (crlf ++ (c.content ++ (crlf ++ encode_parts cs tail))),
          length-append c.content (crlf ++ encode_parts cs tail),
        ) in
      chunks_next (suc f) max_body buf out (length pre)
        (round-chunk out pre w c here e' short (omega (arith, sizes)))
      ∙ rw (at, total, append_assoc) at ih

-- A well-formed chunked message at the front of a buffer shorter than 2^63 bytes decodes to its
-- contents, and is consumed to its last byte, whatever bytes follow, if the contents keep within
-- the limit.
pub decode_chunked-encode :
    (m : Message) (rest : Bytes) (max_body : ℕ)
    → IsMessage m
    → length (encode m ++ rest) < 2 ^ 63
    → length (contents m.parts) ≤ max_body
    → decode_chunked (encode m ++ rest) max_body
      ≡ returns (BodyStatus.complete (contents m.parts) (length (encode m)))
unfolding decode_chunked
decode_chunked-encode m rest max_body h small within =
    let from_start : 0 + length (encode m) ≡ length (encode m) = omega arith in
    rw from_start at (
      chunks-encode max_body (encode m ++ rest) rest small (length (encode m ++ rest)) m.parts [] []
        m.last m.trailer
        (omega (arith, length-append (encode m) rest, length-encode_parts m.parts (encode_end m)))
        h.parts_are h.last_is (IsSizeLine-chunk_size m.last 0 (omega arith) h.last_size)
        h.trailer_is (omega arith) (omega arith) refl)
