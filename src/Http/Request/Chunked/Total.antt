-- ===== src/Http/Request/Chunked/Total.antt =====
-- The fuel of the decoder's loops is enough: every round moves two bytes on at least.
use servoxide.Prelude.{
  ℕ, zero, suc, ◌+◌, ◌≡◌, ◌≤◌, ◌<◌, ◌≢◌, refl, sym, ap, subst, ◌∙◌, inl, inr, [], arith, length,
  Option-cases, Outcome, out_of_fuel,
}
use servoxide.Text.{Bytes, slice}
use servoxide.Http.Request.Types.{BodyStatus}
use servoxide.Http.Request.Search.{crlf, find_from}
use servoxide.Http.Request.Search.Crlf.{find_from_bounds}
use servoxide.Http.Request.Chunked.{
  chunk_size, chunk_data, round, chunks, decode_chunked, Round, stop, next, trailers,
}
use servoxide.Http.Request.Chunked.Steps.{round_size}

trailers-ne-out_of_fuel :
    (f : ℕ) (buf out : Bytes) (pos : ℕ)
    → length buf < pos + f
    → pos ≤ length buf
    → trailers f buf out pos ≢ out_of_fuel
unfolding trailers
trailers-ne-out_of_fuel zero buf out pos fuel at = absurd (omega arith)
trailers-ne-out_of_fuel (suc f) buf out pos fuel at = elim (Option-cases (find_from buf pos crlf)) [
  | inl missing ↦ ground arith
  | inr (e, found) ↦
      let bounds = find_from_bounds buf crlf pos e (omega arith) at found in
      ground (arith, trailers-ne-out_of_fuel f buf out (e + 2), bounds)
]

-- What a round that goes on has done to the position, and that no other is out of fuel.
chunk_data_moves :
    (max_body pos size pos' : ℕ) (buf out out' : Bytes)
    → chunk_data max_body buf out pos size ≡ next out' pos'
    → (pos + 2 ≤ pos') × (pos' ≤ length buf)
unfolding chunk_data
chunk_data_moves max_body pos size pos' buf out out' h = (ground arith, ground arith)

chunk_data-ne-out_of_fuel :
    (max_body pos size : ℕ) (buf out : Bytes)
    → chunk_data max_body buf out pos size ≢ stop out_of_fuel
unfolding chunk_data
chunk_data-ne-out_of_fuel max_body pos size buf out = ground arith

-- Every round ends the function, or moves on by two bytes.
pub data Progress (buf : Bytes) (pos : ℕ) : Round → Type 0 where
  ended : {o : Outcome BodyStatus} → o ≢ out_of_fuel → Progress buf pos (stop o)
  moved :
      {out : Bytes} {pos' : ℕ}
      → pos + 2 ≤ pos'
      → pos' ≤ length buf
      → Progress buf pos (next out pos')

chunk_data-Progress :
    (max_body : ℕ) (buf out : Bytes) (pos start size : ℕ)
    → start ≤ pos
    → Progress buf start (chunk_data max_body buf out pos size)
chunk_data-Progress max_body buf out pos start size h =
    go (chunk_data max_body buf out pos size) refl
  where
    go : (r : Round) → chunk_data max_body buf out pos size ≡ r → Progress buf start r
    go (stop o) e =
        ended (λ no_fuel. chunk_data-ne-out_of_fuel max_body pos size buf out (e ∙ ap stop no_fuel))
    go (next out' pos') e =
        let m = chunk_data_moves max_body pos size pos' buf out out' e in
        moved (omega (arith, m.0)) m.1

round-Progress :
    (max_body : ℕ) (buf out : Bytes) (pos : ℕ)
    → pos ≤ length buf
    → Progress buf pos (round max_body buf out pos)
unfolding round
round-Progress max_body buf out pos at = elim (Option-cases (find_from buf pos crlf)) [
  | inl missing ↦ rw (missing, round) (ended (λ e. cc))
  | inr (e, found) ↦
      let bounds = find_from_bounds buf crlf pos e (omega arith) at found in
      elim (Option-cases (chunk_size (slice buf pos e))) [
        | inl bad ↦ rw (found, round, bad) (ended (λ e. cc))
        | inr (zero, size) ↦
            rw (found, round, size)
              (ended (
                trailers-ne-out_of_fuel (suc (length buf)) buf out (e + 2) (omega arith)
                  (omega (arith, bounds))))
        | inr (suc n, size) ↦
            subst (Progress buf pos)
              (sym (round_size max_body buf out pos e (suc n) found size (omega arith)))
              (chunk_data-Progress max_body buf out (e + 2) pos (suc n) (omega (arith, bounds)))
      ]
]

chunks-ne-out_of_fuel :
    (f max_body : ℕ) (buf out : Bytes) (pos : ℕ)
    → length buf < pos + f
    → pos ≤ length buf
    → chunks f max_body buf out pos ≢ out_of_fuel
unfolding chunks
chunks-ne-out_of_fuel zero max_body buf out pos fuel at = absurd (omega arith)
chunks-ne-out_of_fuel (suc f) max_body buf out pos fuel at =
    go (round max_body buf out pos) refl (round-Progress max_body buf out pos at)
      (λ out' pos' more room. chunks-ne-out_of_fuel f max_body buf out' pos' (omega arith) room)
  where
    go :
        (r : Round)
        → round max_body buf out pos ≡ r
        → Progress buf pos r
        → ((out' : Bytes) (pos' : ℕ)
            → pos + 2 ≤ pos'
            → pos' ≤ length buf
            → chunks f max_body buf out' pos' ≢ out_of_fuel)
        → chunks (suc f) max_body buf out pos ≢ out_of_fuel
    go (stop o) e (ended h) later = rw (e, chunks) h
    go (next out' pos') e (moved more room) later = rw (e, chunks) (later out' pos' more room)

-- The chunked decoder ends on every buffer with every limit: the fuel that it is given is enough.
pub decode_chunked-ne-out_of_fuel :
    (buf : Bytes) (max_body : ℕ) → decode_chunked buf max_body ≢ out_of_fuel
unfolding decode_chunked
decode_chunked-ne-out_of_fuel buf max_body =
    chunks-ne-out_of_fuel (suc (length buf)) max_body buf [] 0 (omega arith) (omega arith)
