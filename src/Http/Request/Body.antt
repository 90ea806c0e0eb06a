-- ===== src/Http/Request/Body.antt =====
-- `body_mode` and `decode_body` of http/request.rs.
pub mod Laws
use servoxide.Prelude.{
  ℕ, zero, suc, Bool, true, false, List, Option, none, some, ltb, if◌then◌else◌, any, take, Outcome,
  returns,
}
use servoxide.Prelude
use servoxide.Text.{Bytes, bytes_eq, codes, split, trim, parse_usize, to_ascii_lowercase}
use servoxide.Dict.{Dict, lookup, text_eq}
use servoxide.Http.Request.Types.{BodyMode, BodyStatus, RequestHead}
use servoxide.Http.Request.Chunked.{decode_chunked}

pub host : RequestHead → Option Bytes
host head = lookup (codes "host") head.headers

-- `Ok` is `some`; `none` is `Err(400)`, the one error there is.
length_mode : Option ℕ → Option BodyMode
length_mode none = none
length_mode (some zero) = some BodyMode.empty
length_mode (some (suc n)) = some (BodyMode.length (suc n))

mode_of : Option Bytes → Option Bytes → Option BodyMode
unfolding length_mode
mode_of (some te) cl =
    if any (λ t. bytes_eq (trim t) (codes "chunked")) (split b',' (to_ascii_lowercase te))
    then some BodyMode.chunked
    else none
mode_of none (some cl) = length_mode (parse_usize (trim cl))
mode_of none none = some BodyMode.empty

unfoldable pub body_mode : RequestHead → Option BodyMode
unfolding mode_of
body_mode head =
    mode_of (lookup (codes "transfer-encoding") head.headers)
      (lookup (codes "content-length") head.headers)

unfoldable pub decode_body : Bytes → BodyMode → ℕ → Outcome BodyStatus
unfolding decode_chunked
decode_body buf BodyMode.empty max_body = returns (BodyStatus.complete Prelude.[] 0)
decode_body buf (BodyMode.length n) max_body =
    if ltb max_body n
    then returns BodyStatus.too_large
    else if ltb (Prelude.length buf) n
    then returns BodyStatus.need_more
    else returns (BodyStatus.complete (take n buf) n)
decode_body buf BodyMode.chunked max_body = decode_chunked buf max_body
