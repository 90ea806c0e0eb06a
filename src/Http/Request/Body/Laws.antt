-- ===== src/Http/Request/Body/Laws.antt =====
-- Bounds of a decoded body, and that it depends on its own bytes only.
use servoxide.Prelude.{
  ◌⊎◌, ◌≢◌, inl, inr, Outcome, panics, out_of_fuel, ℕ, ◌≡◌, ◌≤◌, ◌<◌, ◌^◌, refl, ap, Bool, true,
  false, ◌++◌, arith, ltb, returns, take, take-append_le, Bool-cases, length-append,
}
use servoxide.Prelude
use servoxide.Text.{Bytes}
use servoxide.Http.Request.Types.{BodyMode, BodyStatus}
use servoxide.Http.Request.Body.{decode_body}
use servoxide.Http.Request.Chunked.{decode_chunked}
use servoxide.Http.Request.Chunked.Message.{encode}
use servoxide.Http.Request.Chunked.Total.{decode_chunked-ne-out_of_fuel}
use servoxide.Http.Request.Chunked.Sound.{decode_chunked-Decoded, decode_chunked-append}

-- In every mode, a complete body decoded from a buffer shorter than 2^63 bytes keeps within the
-- limit, and the consumed bytes within the buffer.
pub decode_body-bounds :
    (mode : BodyMode) (buf body : Bytes) (k max_body : ℕ)
    → Prelude.length buf < 2 ^ 63
    → decode_body buf mode max_body ≡ returns (BodyStatus.complete body k)
    → (Prelude.length body ≤ max_body) × (k ≤ Prelude.length buf)
unfolding decode_body
decode_body-bounds BodyMode.empty buf body k max_body small h = ground arith
decode_body-bounds (BodyMode.length n) buf body k max_body small h =
    (ground (arith, Prelude.length-take n buf), ground arith)
decode_body-bounds BodyMode.chunked buf body k max_body small h =
    let (m, rest, is_message, splits, body_is, ends, within) =
      decode_chunked-Decoded buf body k max_body small h in
    (within, omega (arith, ap Prelude.length splits, ends, length-append (encode m) rest))

-- Whatever bytes follow a complete body, in a buffer shorter than 2^63 bytes in all, it is
-- decoded the same, in every mode.
pub decode_body-append :
    (mode : BodyMode) (buf more body : Bytes) (k max_body : ℕ)
    → Prelude.length (buf ++ more) < 2 ^ 63
    → decode_body buf mode max_body ≡ returns (BodyStatus.complete body k)
    → decode_body (buf ++ more) mode max_body ≡ returns (BodyStatus.complete body k)
unfolding decode_body
decode_body-append BodyMode.empty buf more body k max_body small h = h
decode_body-append (BodyMode.length n) buf more body k max_body small h =
    ground (arith, take-append_le n buf more, length-append buf more)
decode_body-append BodyMode.chunked buf more body k max_body small h =
    decode_chunked-append buf more body k max_body small h

-- Decoding a body returns, or the chunked decoder panics.
pub decode_body-cases :
    (buf : Bytes) (mode : BodyMode) (max_body : ℕ)
    → ((s : BodyStatus) × (decode_body buf mode max_body ≡ returns s))
      ⊎ ((decode_body buf mode max_body ≡ panics)
          × (mode ≡ BodyMode.chunked)
          × (decode_chunked buf max_body ≡ panics))
unfolding decode_body
decode_body-cases buf BodyMode.empty max_body = inl (_, refl)
decode_body-cases buf (BodyMode.length n) max_body = elim (Bool-cases (ltb max_body n)) [
  | inl over ↦ inl (BodyStatus.too_large, rw over refl)
  | inr within ↦ elim (Bool-cases (ltb (Prelude.length buf) n)) [
    | inl short ↦ inl (BodyStatus.need_more, rw (within, short) refl)
    | inr all_there ↦ inl (BodyStatus.complete (take n buf) n, rw (within, all_there) refl)
  ]
]
decode_body-cases buf BodyMode.chunked max_body =
    go (decode_chunked buf max_body) refl (decode_chunked-ne-out_of_fuel buf max_body)
  where
    go :
        (o : Outcome BodyStatus)
        → decode_chunked buf max_body ≡ o
        → decode_chunked buf max_body ≢ out_of_fuel
        → ((s : BodyStatus) × (decode_chunked buf max_body ≡ returns s))
          ⊎ ((decode_chunked buf max_body ≡ panics)
              × (◌≡◌ {A = BodyMode} BodyMode.chunked BodyMode.chunked)
              × (decode_chunked buf max_body ≡ panics))
    go (returns s) e total = inl (s, e)
    go panics e total = inr (e, refl, e)
    go out_of_fuel e total = absurd (total e)
