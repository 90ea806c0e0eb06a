-- ===== src/Http/Request/Tests.antt =====
-- The unit tests of http/request.rs, and the theorems at concrete requests.
use servoxide.Prelude.{
  ◌+◌, ◌-◌, ◌^◌, ◌≡◌, ◌≢◌, ◌≤◌, ◌↔◌, refl, [], ◌∷◌, ◌++◌, some, none, returns, panics, out_of_fuel,
  wrapping_add, length, ltb→lt, leb→le, arith, option_map, drop,
}
use servoxide.Text.{
  Bytes, codes, bytes_eq, from_utf8, split_crlf, split, starts_with, split_once, from_utf8_lossy,
  to_ascii_lowercase, trim, from_str_radix, scan,
}
use servoxide.Dict.{insert}
use servoxide.Http.Request.Search.{find_from, crlf, crlf2}
use servoxide.Http.Request.Search.Laws.{index_of, find_from-index_of}
use servoxide.Text.Numerals.{decimal}
use servoxide.Http.Request.Chunked.SizeLine.{chunk_size-IsSizeLine}
use servoxide.Http.Request.Chunked.Message.{
  Message, Chunk, IsMessage, IsChunk, IsLine, encode, contents,
}
use servoxide.Http.Request.Chunked.RoundTrip.{decode_chunked-encode}
use servoxide.Http.Request.Chunked.Sound.{decode_chunked-Decoded}
use servoxide.Http.Request.Chunked.Total.{decode_chunked-ne-out_of_fuel}
use servoxide.Http.Request.Chunked.Overflow.{decode_chunked-panics}
use servoxide.Http.Request.Head.Laws.{
  IsHead, parse_head-append, parse_head-IsHead, parse_head-need_more,
}
use servoxide.Http.Request.Body.Laws.{decode_body-bounds, decode_body-append}
use servoxide.Http.Request.Percent.Laws.{Encodes, percent_decode-Encodes}
use servoxide.Http.Request.Types.{RequestHead, HeadStatus, BodyMode, BodyStatus}
use servoxide.Http.Request.Head.{parse_head, max_head_bytes}
use servoxide.Http.Request.Body.{decode_body}
use servoxide.Http.Request.Chunked.{decode_chunked}
use servoxide.Http.Request.Percent.{percent_decode}

-- What a run of the parsers opens.
abbrev runs : Unit {0}
unfolding parse_head decode_body decode_chunked percent_decode find_from bytes_eq from_utf8
    split_crlf split starts_with split_once insert from_utf8_lossy to_ascii_lowercase trim codes
    from_str_radix wrapping_add scan index_of
runs = tt

abbrev get_head : RequestHead
get_head = record {
  method = codes "GET";
  path = codes "/a b/c";
  query = codes "x=1&y=2";
  version = codes "HTTP/1.1";
  headers = (codes "host", codes "example.com") ∷ (codes "accept", codes "*/*") ∷ [];
  head_len = 69;
}

parse_head-get :
    parse_head
      (codes "GET /a%20b%2Fc?x=1&y=2 HTTP/1.1\r\nHost: example.com\r\nAccept:  */* \r\n\r\n")
    ≡ HeadStatus.ok get_head
unfolding runs
parse_head-get = refl

parse_head-partial : parse_head (codes "GET / HTTP/1.1\r\nHost: x") ≡ HeadStatus.need_more
unfolding runs
parse_head-partial = refl

parse_head-malformed :
    (parse_head (codes "GET /\r\n\r\n") ≡ HeadStatus.bad 400)
    × (parse_head (codes "JUST GARBAGE LINE HERE\r\n\r\n") ≡ HeadStatus.bad 400)
unfolding runs
parse_head-malformed = (refl, refl)

decode_body-length :
    (decode_body (codes "hello") (BodyMode.length 5) 1024
      ≡ returns (BodyStatus.complete (codes "hello") 5))
    × (decode_body (codes "hel") (BodyMode.length 5) 1024 ≡ returns BodyStatus.need_more)
    × (decode_body [] (BodyMode.length 2000) 1024 ≡ returns BodyStatus.too_large)
unfolding runs
decode_body-length = (refl, refl, refl)

decode_chunked-wikipedia :
    decode_chunked (codes "4\r\nWiki\r\n5;foo=bar\r\npedia\r\n0\r\nT: x\r\n\r\nGET") 1024
    ≡ returns (BodyStatus.complete (codes "Wikipedia") 38)
unfolding runs
decode_chunked-wikipedia = refl

decode_chunked-partial :
    (decode_chunked (codes "4\r\nWi") 1024 ≡ returns BodyStatus.need_more)
    × (decode_chunked (codes "5\r\nhello\r\n0\r\n\r\n") 3 ≡ returns BodyStatus.too_large)
unfolding runs
decode_chunked-partial = (refl, refl)

decode_chunked-huge : decode_chunked (codes "1\r\na\r\nffffffffffffffff\r\nx") 1024 ≡ panics
unfolding runs
decode_chunked-huge = refl

percent_decode-mixed : percent_decode (codes "/a%20b%zz%4") ≡ codes "/a b%zz%4"
unfolding runs
percent_decode-mixed = refl

abbrev wiki : Message
wiki = record {
  parts =
      record { line = codes "4"; content = codes "Wiki" }
      ∷ record { line = codes "5;foo=bar"; content = codes "pedia" }
      ∷ [];
  last = codes "0";
  trailer = codes "T: x" ∷ [];
}

wiki-IsMessage : IsMessage wiki
unfolding runs
wiki-IsMessage = record {
  parts_are = (
    (refl, chunk_size-IsSizeLine (codes "4") 4 refl, ltb→lt _ _ refl),
    ((refl, chunk_size-IsSizeLine (codes "5;foo=bar") 5 refl, ltb→lt _ _ refl), tt),
  );
  last_is = refl;
  last_size = chunk_size-IsSizeLine wiki.last 0 refl;
  trailer_is = ((refl, λ e. ground (arith, e)), tt);
}

decode_chunked-encode_example :
    decode_chunked (encode wiki ++ codes "GET") 1024
    ≡ returns (BodyStatus.complete (contents wiki.parts) (length (encode wiki)))
unfolding codes
decode_chunked-encode_example =
    decode_chunked-encode wiki (codes "GET") 1024 wiki-IsMessage (ltb→lt _ _ refl) (leb→le _ _ refl)

abbrev wiki_bytes : Bytes
wiki_bytes = codes "4\r\nWiki\r\n5;foo=bar\r\npedia\r\n0\r\nT: x\r\n\r\n"

decode_chunked-wiki :
    decode_chunked wiki_bytes 1024 ≡ returns (BodyStatus.complete (codes "Wikipedia") 38)
unfolding runs
decode_chunked-wiki = refl

-- A plus sign in front of the digits is taken.
decode_chunked-plus :
    decode_chunked (codes "+4\r\nWiki\r\n0\r\n\r\n") 1024
    ≡ returns (BodyStatus.complete (codes "Wiki") 15)
unfolding runs
decode_chunked-plus = refl

decode_chunked-Decoded_example :
    (m : Message) × (rest : Bytes) × IsMessage m
    × (wiki_bytes ≡ encode m ++ rest)
    × (codes "Wikipedia" ≡ contents m.parts)
    × (38 ≡ length (encode m))
    × (length (codes "Wikipedia") ≤ 1024)
unfolding codes
decode_chunked-Decoded_example =
    decode_chunked-Decoded wiki_bytes (codes "Wikipedia") 38 1024 (ltb→lt _ _ refl)
      decode_chunked-wiki

decode_chunked-ne-out_of_fuel_example : decode_chunked wiki_bytes 1024 ≢ out_of_fuel
decode_chunked-ne-out_of_fuel_example = decode_chunked-ne-out_of_fuel wiki_bytes 1024

abbrev one_byte : Chunk
one_byte = record { line = codes "1"; content = codes "a" }

one_byte-IsChunk : IsChunk one_byte
unfolding runs
one_byte-IsChunk = (refl, chunk_size-IsSizeLine one_byte.line 1 refl, ltb→lt _ _ refl)

huge-IsLine : IsLine (codes "ffffffffffffffff")
unfolding runs
huge-IsLine = refl

decode_chunked-panics_example :
    decode_chunked
      (codes "1"
        ++ (crlf ++ (codes "a" ++ (crlf ++ (codes "ffffffffffffffff" ++ (crlf ++ b'x' ∷ []))))))
      1024
    ≡ panics
unfolding runs
decode_chunked-panics_example =
    decode_chunked-panics one_byte (codes "ffffffffffffffff") (2 ^ 64 - 1) b'x' [] 1024
      one_byte-IsChunk huge-IsLine refl (leb→le _ _ refl) (leb→le _ _ refl) (ltb→lt _ _ refl)

find_from-index_of_example :
    find_from wiki_bytes 3 crlf ≡ option_map (λ k. 3 + k) (index_of crlf (drop 3 wiki_bytes))
unfolding codes
find_from-index_of_example =
    find_from-index_of wiki_bytes crlf 3 (ltb→lt _ _ refl) (leb→le _ _ refl)

abbrev get_bytes : Bytes
get_bytes = codes "GET / HTTP/1.1\r\nHost: x\r\n\r\n"

get_bytes-crlf2 : find_from get_bytes 0 crlf2 ≡ some 23
unfolding runs
get_bytes-crlf2 = refl

parse_head-append_example : parse_head (get_bytes ++ codes "hello") ≡ parse_head get_bytes
parse_head-append_example = parse_head-append get_bytes (codes "hello") 23 get_bytes-crlf2

abbrev short_head : RequestHead
short_head = record {
  method = codes "GET";
  path = codes "/";
  query = [];
  version = codes "HTTP/1.1";
  headers = (codes "host", codes "x") ∷ [];
  head_len = 27;
}

parse_head-short : parse_head get_bytes ≡ HeadStatus.ok short_head
unfolding runs
parse_head-short = refl

parse_head-IsHead_example : IsHead get_bytes short_head
parse_head-IsHead_example = parse_head-IsHead get_bytes short_head parse_head-short

parse_head-need_more_example :
    (parse_head (codes "GET / HT") ≡ HeadStatus.need_more)
    ↔ ((index_of crlf2 (codes "GET / HT") ≡ none) × (length (codes "GET / HT") ≤ max_head_bytes))
parse_head-need_more_example = parse_head-need_more (codes "GET / HT")

decode_body-bounds_example : (length (codes "Wikipedia") ≤ 1024) × (38 ≤ length wiki_bytes)
unfolding decode_body codes
decode_body-bounds_example =
    decode_body-bounds BodyMode.chunked wiki_bytes (codes "Wikipedia") 38 1024 (ltb→lt _ _ refl)
      decode_chunked-wiki

decode_body-append_example :
    decode_body (wiki_bytes ++ codes "GET") BodyMode.chunked 1024
    ≡ returns (BodyStatus.complete (codes "Wikipedia") 38)
unfolding decode_body codes
decode_body-append_example =
    decode_body-append BodyMode.chunked wiki_bytes (codes "GET") (codes "Wikipedia") 38 1024
      (ltb→lt _ _ refl) decode_chunked-wiki

percent_decode-Encodes_example : percent_decode (codes "a%20b") ≡ codes "a b"
unfolding runs
percent_decode-Encodes_example = percent_decode-Encodes refl (
    Encodes.plain (omega arith) (
      Encodes.escape (omega arith) (decimal {d = 2} (omega arith)) (omega arith)
        (decimal {d = 0} (omega arith)) (Encodes.plain (omega arith) Encodes.nil)))
