-- ===== src/Http/Request/Chunked/Message.antt =====
-- Chunked messages, by a grammar that does not mention the decoder: chunks, each under its size
-- line, a last chunk of size 0, and trailer lines up to a blank one. It is that of RFC 7230, 4.1,
-- but for the size lines, which the program takes more freely: a `+` may stand in front of the
-- digits and white space around them, and an extension is any text behind a `;`. Nor has a trailer
-- line to be a header field.
use servoxide.Prelude.{◌<◌, ◌++◌, List, [], ◌∷◌, All, length}
use servoxide.Text.{Bytes}
use servoxide.Http.Request.Search.{crlf}
pub use servoxide.Http.Request.Search.Lines.{IsLine, IsTrailer, encode_trailer}
use servoxide.Http.Request.Chunked.SizeLine.{IsSizeLine}

pub record Chunk : Type 0 where
  pub line : Bytes
  pub content : Bytes

pub record Message : Type 0 where
  pub parts : List Chunk
  pub last : Bytes
  pub trailer : List Bytes

abbrev pub IsChunk : Chunk → Type 0
IsChunk c = IsLine c.line × IsSizeLine c.line (length c.content) × (0 < length c.content)

pub record IsMessage (m : Message) : Type 0 where
  pub parts_are : All IsChunk m.parts
  pub last_is : IsLine m.last
  pub last_size : IsSizeLine m.last 0
  pub trailer_is : All IsTrailer m.trailer

abbrev pub encode_parts : List Chunk → Bytes → Bytes
encode_parts [] tail = tail
encode_parts (c ∷ cs) tail = c.line ++ (crlf ++ (c.content ++ (crlf ++ encode_parts cs tail)))

-- The bytes on the wire, in front of `rest`.
abbrev pub encode_end : Message → Bytes
encode_end m = m.last ++ (crlf ++ encode_trailer m.trailer)

abbrev pub encode : Message → Bytes
encode m = encode_parts m.parts (encode_end m)

-- The body that it carries.
abbrev pub contents : List Chunk → Bytes
contents [] = []
contents (c ∷ cs) = c.content ++ contents cs
