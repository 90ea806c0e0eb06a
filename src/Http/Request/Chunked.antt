-- ===== src/Http/Request/Chunked.antt =====
-- `decode_chunked` of http/request.rs, as a release build runs it. A sum that holds the size from
-- the wire wraps; the others are bounded by the length of the buffer.
pub mod SizeLine
pub mod Message
pub mod Data
mod Trailer
mod Steps
pub mod RoundTrip
mod Lines
mod Decoded
pub mod Sound
pub mod Total
pub mod Overflow
use servoxide.Prelude.{
  ℕ, zero, suc, ◌+◌, ◌&&◌, not, Bool, List, [], ◌∷◌, ◌++◌, Option, none, some, ltb, leb, ◌==◌,
  if◌then◌else◌, and_then, length, usize_mod, wrapping_add, Outcome, returns, panics, out_of_fuel,
}
use servoxide.Text.{Bytes, bytes_eq, slice, from_utf8, split, trim, from_str_radix}
use servoxide.Http.Request.Search.{crlf, find_from}
use servoxide.Http.Request.Types.{BodyStatus}

-- `s.split(';').next().unwrap_or("")`.
first_part : List Bytes → Bytes
first_part [] = []
first_part (p ∷ ps) = p

-- The size that a chunk-size line states; `none` is the `400`.
unfoldable pub chunk_size : Bytes → Option ℕ
unfolding first_part
chunk_size line =
    and_then (from_utf8 line) λ s. from_str_radix 16 usize_mod (trim (first_part (split b';' s)))

-- The inner loop, after the last chunk: header lines up to a blank one.
unfoldable pub trailers : ℕ → Bytes → Bytes → ℕ → Outcome BodyStatus
unfolding find_from
trailers zero buf out pos = out_of_fuel
trailers (suc f) buf out pos = elim (find_from buf pos crlf) [
  | none ↦ returns BodyStatus.need_more
  | some te ↦
      let rest = trailers f buf out (te + 2) in
      if te == pos then returns (BodyStatus.complete out (te + 2)) else rest
]

-- One round of the outer loop ends the function, or goes on with the output and the position.
pub data Round : Type 0 where
  stop : Outcome BodyStatus → Round
  next : Bytes → ℕ → Round

-- `&buf[pos..pos + 2] != b"\r\n"`, and the step over it.
chunk_end : Bytes → Bytes → ℕ → Round
chunk_end buf out pos =
    if not (leb pos (wrapping_add pos 2) && leb (wrapping_add pos 2) (length buf))
    then stop panics
    else if bytes_eq (slice buf pos (wrapping_add pos 2)) crlf
    then next out (wrapping_add pos 2)
    else stop (returns (BodyStatus.bad 400))

-- The guards and the data of a chunk of `size` bytes at `pos`.
unfoldable pub chunk_data : ℕ → Bytes → Bytes → ℕ → ℕ → Round
unfolding chunk_end wrapping_add
chunk_data max_body buf out pos size =
    let end = wrapping_add pos size in
    if ltb (length buf) (wrapping_add end 2)
    then stop (returns BodyStatus.need_more)
    else if ltb max_body (wrapping_add (length out) size)
    then stop (returns BodyStatus.too_large)
    else if not (leb pos end && leb end (length buf))
    then stop panics
    else chunk_end buf (out ++ slice buf pos end) end

unfoldable pub round : ℕ → Bytes → Bytes → ℕ → Round
unfolding chunk_data trailers chunk_size
round max_body buf out pos = elim (find_from buf pos crlf) [
  | none ↦ stop (returns BodyStatus.need_more)
  | some line_end ↦ elim (chunk_size (slice buf pos line_end)) [
    | none ↦ stop (returns (BodyStatus.bad 400))
    | some size ↦
        if size == 0
        then stop (trailers (suc (length buf)) buf out (line_end + 2))
        else chunk_data max_body buf out (line_end + 2) size
  ]
]

unfoldable pub chunks : ℕ → ℕ → Bytes → Bytes → ℕ → Outcome BodyStatus
unfolding round
chunks zero max_body buf out pos = out_of_fuel
chunks (suc f) max_body buf out pos = elim (round max_body buf out pos) [
  | stop r ↦ r
  | next out' pos' ↦ chunks f max_body buf out' pos'
]

-- A round passes over two bytes at least, so the length of the buffer is fuel enough.
unfoldable pub decode_chunked : Bytes → ℕ → Outcome BodyStatus
unfolding chunks
decode_chunked buf max_body = chunks (suc (length buf)) max_body buf [] 0
