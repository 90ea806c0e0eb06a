-- ===== src/Http/Request/Chunked/Decoded.antt =====
-- A decoded message as text of the buffer, and how it grows by a chunk.
use servoxide.Prelude.{
  ℕ, ◌+◌, ◌≡◌, ◌≤◌, ◌<◌, ◌≢◌, sym, ap, ◌∙◌, [], ◌∷◌, ◌++◌, some, arith, length, returns,
  length-append, append_assoc, append-nil,
}
use servoxide.Text.{Bytes}
use servoxide.Http.Request.Types.{BodyStatus}
use servoxide.Http.Request.Search.{crlf}
use servoxide.Http.Request.Chunked.{chunk_size, chunk_data, stop}
use servoxide.Http.Request.Chunked.SizeLine.{chunk_size-IsSizeLine}
use servoxide.Http.Request.Chunked.Message.{
  Chunk, Message, IsLine, IsMessage, encode_trailer, encode, contents,
}
use servoxide.Http.Request.Chunked.Trailer.{length_line}
use servoxide.Http.Request.Chunked.Lines.{Trailed}

-- The guards of a chunk complete nothing.
pub chunk_data-ne-complete :
    (max_body pos size k : ℕ) (buf out body : Bytes)
    → chunk_data max_body buf out pos size ≢ stop (returns (BodyStatus.complete body k))
unfolding chunk_data
chunk_data-ne-complete max_body pos size k buf out body = ground arith

-- The message, as text, behind `pre`.
pub record Decoded (max_body : ℕ) (out pre s body : Bytes) (k : ℕ) : Type 0 where
  pub message : Message
  pub rest : Bytes
  pub is_message : IsMessage message
  pub splits : s ≡ encode message ++ rest
  pub body_is : body ≡ out ++ contents message.parts
  pub ends : k ≡ length pre + length (encode message)
  pub within : length body ≤ max_body

pub Trailed-Decoded :
    (max_body : ℕ) (out pre line after body : Bytes) (k : ℕ)
    → IsLine line
    → chunk_size line ≡ some 0
    → length out ≤ max_body
    → Trailed out (pre ++ (line ++ crlf)) after body k
    → Decoded max_body out pre (line ++ (crlf ++ after)) body k
Trailed-Decoded max_body out pre line after body k is_line size within t = record {
  message = record { parts = []; last = line; trailer = t.lines };
  rest = t.rest;
  is_message = record {
    parts_are = tt;
    last_is = is_line;
    last_size = chunk_size-IsSizeLine line 0 size;
    trailer_is = t.lines_are;
  };
  splits = ap (λ z. line ++ (crlf ++ z)) t.splits ∙ simp append_assoc;
  body_is = t.body_is ∙ sym (append-nil out);
  ends =
      omega
        (arith, t.ends, length_line pre line, length-append line (crlf ++ encode_trailer t.lines));
  within = rw t.body_is within;
}

-- A chunk in front of a message.
pub Decoded-cons :
    (max_body : ℕ) (out pre line content w body : Bytes) (k : ℕ)
    → IsLine line
    → chunk_size line ≡ some (length content)
    → 0 < length content
    → Decoded max_body (out ++ content) ((pre ++ (line ++ crlf)) ++ (content ++ crlf)) w body k
    → Decoded max_body out pre (line ++ (crlf ++ (content ++ (crlf ++ w)))) body k
Decoded-cons max_body out pre line content w body k is_line size filled d =
    let c : Chunk = record { line = line; content = content } in
    let tail : Bytes = encode d.message in
    record {
      message = record (d.message) { parts = c ∷ d.message.parts };
      rest = d.rest;
      is_message = record {
        parts_are = (
          (is_line, chunk_size-IsSizeLine line (length content) size, filled),
          d.is_message.parts_are,
        );
        last_is = d.is_message.last_is;
        last_size = d.is_message.last_size;
        trailer_is = d.is_message.trailer_is;
      };
      splits = ap (λ z. line ++ (crlf ++ (content ++ (crlf ++ z)))) d.splits ∙ simp append_assoc;
      body_is = d.body_is ∙ append_assoc out content (contents d.message.parts);
      ends = omega (
        arith,
        d.ends,
        length_line pre line,
        length_line (pre ++ (line ++ crlf)) content,
        length-append line (crlf ++ (content ++ (crlf ++ tail))),
        length-append content (crlf ++ tail),
      );
      within = d.within;
    }
