-- ===== src/Http/Request/Chunked/Sound.antt =====
-- Whatever the decoder accepts is a chunked message.
use servoxide.Prelude.{
  ℕ, zero, suc, ◌+◌, ◌≡◌, ◌≤◌, ◌<◌, ◌^◌, ◌⊎◌, refl, sym, ap, subst, ◌∙◌, inl, inr, [], ◌++◌, none,
  some, arith, length, returns, length-append, append_assoc, Option-cases, Outcome,
}
use servoxide.Text.{Bytes, slice}
use servoxide.Http.Request.Types.{BodyStatus}
use servoxide.Http.Request.Search.{crlf, find_from}
use servoxide.Http.Request.Search.Crlf.{find_from_line_sound, slice-append_length}
use servoxide.Http.Request.Chunked.{
  chunk_size, chunk_data, round, chunks, decode_chunked, Round, stop, next,
}
use servoxide.Http.Request.Chunked.Message.{Message, IsLine, IsMessage, encode, contents}
use servoxide.Http.Request.Chunked.Data.{chunk_data-Passed, Passed}
use servoxide.Http.Request.Chunked.Trailer.{length_line, regroup}
use servoxide.Http.Request.Chunked.Lines.{chunk_size-lt, content-split, trailers-Trailed}
use servoxide.Http.Request.Chunked.RoundTrip.{decode_chunked-encode}
use servoxide.Http.Request.Chunked.Steps.{round_size, round_last, chunks_stop, chunks_next}
use servoxide.Http.Request.Chunked.Decoded.{
  chunk_data-ne-complete, Decoded, Trailed-Decoded, Decoded-cons,
}

Round-cases :
    (r : Round)
    → ((o : Outcome BodyStatus) × (r ≡ stop o)) ⊎ ((out : Bytes) × (pos : ℕ) × (r ≡ next out pos))
Round-cases (stop o) = inl (o, refl)
Round-cases (next out pos) = inr (out, pos, refl)

chunks_no_fuel :
    (max_body : ℕ) (buf out : Bytes) (pos : ℕ)
    → chunks zero max_body buf out pos ≡ Outcome.out_of_fuel
unfolding chunks
chunks_no_fuel max_body buf out pos = refl

round_missing :
    (max_body : ℕ) (buf out : Bytes) (pos : ℕ)
    → find_from buf pos crlf ≡ none
    → round max_body buf out pos ≡ stop (returns BodyStatus.need_more)
unfolding round
round_missing max_body buf out pos h = rw (h, round)

round_bad :
    (max_body : ℕ) (buf out : Bytes) (pos e : ℕ)
    → find_from buf pos crlf ≡ some e
    → chunk_size (slice buf pos e) ≡ none
    → round max_body buf out pos ≡ stop (returns (BodyStatus.bad 400))
unfolding round
round_bad max_body buf out pos e h g = rw (h, round, g)

module _ (max_body : ℕ) (buf : Bytes) (small : length buf < 2 ^ 63) where
  -- What one round of the loop at `pre` knows of the chunk it has passed over.
  Passed-Decoded :
      (out pre line after out' body : Bytes) (pos' size k : ℕ)
      → buf ≡ pre ++ (line ++ (crlf ++ after))
      → IsLine line
      → chunk_size line ≡ some size
      → 0 < size
      → Passed max_body (length pre + length line + 2) size buf out out' pos'
      → ((pre' s : Bytes)
          → buf ≡ pre' ++ s
          → pos' ≡ length pre'
          → length out' ≤ length pre'
          → length out' ≤ max_body
          → Decoded max_body out' pre' s body k)
      → length out ≤ length pre
      → Decoded max_body out pre (line ++ (crlf ++ after)) body k
  Passed-Decoded out pre line after out' body pos' size k e is_line sized filled p later short =
      let p1 : Bytes = pre ++ (line ++ crlf) in
      let at : length p1 ≡ length pre + length line + 2 = length_line pre line in
      let e1 : buf ≡ p1 ++ after = e ∙ regroup pre line after in
      let content : Bytes = slice (p1 ++ after) (length p1) (length p1 + size) in
      let (w, cut, width) =
        content-split p1 after size (rw (at, ← e1) p.in_bounds) (rw (at, ← e1) p.ends) in
      let taken : slice buf (length pre + length line + 2) (length pre + length line + 2 + size)
          ≡ content =
        rw (at, ← e1) in
      let grows : out' ≡ out ++ content = p.grows ∙ ap (λ z. out ++ z) taken in
      let pre' : Bytes = p1 ++ (content ++ crlf) in
      let here : length pre' ≡ length p1 + length content + 2 = length_line p1 content in
      let size_out : length out' ≡ length out + length content =
        ap length grows ∙ length-append out content in
      let rest =
        later pre' w (e1 ∙ ap (λ z. p1 ++ z) cut ∙ regroup p1 content w)
          (omega (arith, p.moves, here, at, width)) (omega (arith, size_out, here, at))
          (omega (arith, size_out, width, p.within_limit)) in
      let message =
        Decoded-cons max_body out pre line content w body k is_line (sized ∙ ap some (sym width))
          (omega (arith, width)) (subst (λ z. Decoded max_body z pre' w body k) grows rest) in
      subst (λ z. Decoded max_body out pre (line ++ (crlf ++ z)) body k) (sym cut) message

  round-Decoded :
      (f : ℕ) (out pre line after body : Bytes) (k : ℕ)
      → buf ≡ pre ++ (line ++ (crlf ++ after))
      → IsLine line
      → find_from buf (length pre) crlf ≡ some (length pre + length line)
      → chunk_size (slice buf (length pre) (length pre + length line)) ≡ chunk_size line
      → length out ≤ length pre
      → length out ≤ max_body
      → chunks (suc f) max_body buf out (length pre) ≡ returns (BodyStatus.complete body k)
      → ((out' pre' s' : Bytes)
          → buf ≡ pre' ++ s'
          → length out' ≤ length pre'
          → length out' ≤ max_body
          → chunks f max_body buf out' (length pre') ≡ returns (BodyStatus.complete body k)
          → Decoded max_body out' pre' s' body k)
      → Decoded max_body out pre (line ++ (crlf ++ after)) body k
  round-Decoded f out pre line after body k e is_line found same short within h later =
      elim (Option-cases (chunk_size line)) [
        | inl bad ↦ cc (
            chunks_stop f max_body buf out (length pre)
              (round_bad max_body buf out (length pre) _ found (same ∙ bad)))
        | inr (zero, size) ↦
            let at : length (pre ++ (line ++ crlf)) ≡ length pre + length line + 2 =
              length_line pre line in
            let last = round_last max_body buf out (length pre) _ found (same ∙ size) in
            let read = sym (chunks_stop f max_body buf out (length pre) last) ∙ h in
            Trailed-Decoded max_body out pre line after body k is_line size within (
              trailers-Trailed (suc (length buf)) out (pre ++ (line ++ crlf)) after body k buf
                (e ∙ regroup pre line after) (rw at read))
        | inr (suc n, size) ↦
            let here : ℕ = length pre + length line + 2 in
            let step =
              round_size max_body buf out (length pre) _ (suc n) found (same ∙ size)
                (omega arith) in
            let room : here ≤ length buf = omega (
              arith,
              ap length e,
              length-append pre (line ++ (crlf ++ after)),
              length-append line (crlf ++ after),
            ) in
            elim (Round-cases (chunk_data max_body buf out here (suc n))) [
              | inl (o, r) ↦
                  let ends = sym (chunks_stop f max_body buf out (length pre) (step ∙ r)) ∙ h in
                  absurd
                    (chunk_data-ne-complete max_body here (suc n) k buf out body (r ∙ ap stop ends))
              | inr (out', pos', r) ↦
                  let goes = sym (chunks_next f max_body buf out (length pre) (step ∙ r)) ∙ h in
                  let passed =
                    chunk_data-Passed max_body here (suc n) buf out out' pos' small (omega arith)
                      room (omega arith) (chunk_size-lt line (suc n) size) r in
                  Passed-Decoded out pre line after out' body pos' (suc n) k e is_line size
                    (omega arith) passed
                    (λ pre' s' e2 at short' within'.
                      later out' pre' s' e2 short' within' (rw at at goes))
                    short
            ]
      ]

  chunks-Decoded :
      (f : ℕ) (out pre s body : Bytes) (k : ℕ)
      → buf ≡ pre ++ s
      → length out ≤ length pre
      → length out ≤ max_body
      → chunks f max_body buf out (length pre) ≡ returns (BodyStatus.complete body k)
      → Decoded max_body out pre s body k
  chunks-Decoded zero out pre s body k e short within h =
      cc (chunks_no_fuel max_body buf out (length pre))
  chunks-Decoded (suc f) out pre s body k e short within h =
      elim (Option-cases (find_from buf (length pre) crlf)) [
        | inl missing ↦ cc (
            chunks_stop f max_body buf out (length pre)
              (round_missing max_body buf out (length pre) missing))
        | inr (end, found) ↦
            let (line, after, splits, is_line, at) =
              find_from_line_sound pre s end (rw e at found) in
            let e' : buf ≡ pre ++ (line ++ (crlf ++ after)) = e ∙ ap (λ z. pre ++ z) splits in
            let found' : find_from buf (length pre) crlf ≡ some (length pre + length line) =
              found ∙ ap some at in
            let cut : slice buf (length pre) (length pre + length line) ≡ line =
              rw e' (slice-append_length pre line (crlf ++ after)) in
            rw splits (
              round-Decoded f out pre line after body k e' is_line found' (ap chunk_size cut) short
                within h
                (λ out' pre' s' e2 short' within' h'.
                  chunks-Decoded f out' pre' s' body k e2 short' within' h'))
      ]

-- Whatever the chunked decoder accepts, in a buffer shorter than 2^63 bytes, is a chunked message
-- by the grammar: each size line states the length of its chunk in hexadecimal digits, the buffer
-- begins with the message, the body is its contents and within the limit, and the consumed bytes
-- are exactly its own.
pub decode_chunked-Decoded :
    (buf body : Bytes) (k max_body : ℕ)
    → length buf < 2 ^ 63
    → decode_chunked buf max_body ≡ returns (BodyStatus.complete body k)
    → (m : Message) × (rest : Bytes) × IsMessage m
      × (buf ≡ encode m ++ rest)
      × (body ≡ contents m.parts)
      × (k ≡ length (encode m))
      × (length body ≤ max_body)
unfolding decode_chunked
decode_chunked-Decoded buf body k max_body small h =
    let d =
      chunks-Decoded max_body buf small (suc (length buf)) [] [] buf body k refl (omega arith)
        (omega arith) h in
    (d.message, d.rest, d.is_message, d.splits, d.body_is, omega (arith, d.ends), d.within)

-- Bytes that arrive behind a complete chunked message, in a buffer shorter than 2^63 bytes in
-- all, change neither its body nor its length.
pub decode_chunked-append :
    (buf more body : Bytes) (k max_body : ℕ)
    → length (buf ++ more) < 2 ^ 63
    → decode_chunked buf max_body ≡ returns (BodyStatus.complete body k)
    → decode_chunked (buf ++ more) max_body ≡ returns (BodyStatus.complete body k)
decode_chunked-append buf more body k max_body small h =
    let (m, rest, is_message, splits, body_is, ends, within) =
      decode_chunked-Decoded buf body k max_body (omega (arith, length-append buf more)) h in
    let whole : buf ++ more ≡ encode m ++ (rest ++ more) =
      ap (λ z. z ++ more) splits ∙ append_assoc (encode m) rest more in
    rw (whole, body_is, ends)
      (decode_chunked-encode m (rest ++ more) max_body is_message (rw whole at small)
        (rw body_is at within))
