-- ===== src/Http/Request/Chunked/Lines.antt =====
-- What the decoder has read, as text: the size of a line, the data of a chunk, the trailers.
use servoxide.Prelude.{
  ℕ, zero, suc, ◌+◌, ◌-◌, ◌≡◌, ◌≤◌, ◌<◌, ◌≢◌, refl, sym, ap, ◌∙◌, inl, inr, List, [], ◌∷◌, ◌++◌,
  none, some, All, arith, length, take, drop, returns, length-append, append_assoc,
  take-append-drop, drop-append_length, length-take, drop-append_add, usize_mod, Option-cases,
  Outcome,
}
use servoxide.Text.{Bytes, slice, from_utf8}
use servoxide.Text.Digits.{from_str_radix-lt}
use servoxide.Http.Request.Types.{BodyStatus}
use servoxide.Http.Request.Search.{crlf, find_from}
use servoxide.Http.Request.Search.Crlf.{find_from_line_sound}
use servoxide.Http.Request.Chunked.{trailers, chunk_size}
use servoxide.Http.Request.Chunked.Message.{IsLine, IsTrailer, encode_trailer}
use servoxide.Http.Request.Chunked.Trailer.{length_line, regroup, trailers_blank, trailers_line}

-- A size fits a `usize`.
pub chunk_size-lt : (line : Bytes) (n : ℕ) → chunk_size line ≡ some n → n < usize_mod
unfolding chunk_size
chunk_size-lt line n e = elim (Option-cases (from_utf8 line)) [
  | inl bad ↦ absurd (ground arith)
  | inr (s, good) ↦ from_str_radix-lt 16 usize_mod _ n (omega arith) (rw good at e)
]

-- Where the data and its line end stand, the text splits.
pub content-split :
    (p after : Bytes) (size : ℕ)
    → length p + size + 2 ≤ length (p ++ after)
    → slice (p ++ after) (length p + size) (length p + size + 2) ≡ crlf
    → (w : Bytes) × (after ≡ slice (p ++ after) (length p) (length p + size) ++ (crlf ++ w))
      × (length (slice (p ++ after) (length p) (length p + size)) ≡ size)
content-split p after size fits ends =
    let width : length p + size - length p ≡ size = omega arith in
    let two : length p + size + 2 - (length p + size) ≡ 2 = omega arith in
    let room : size + 2 ≤ length after = omega (arith, length-append p after) in
    let end : take 2 (drop size after) ≡ crlf = rw (two, drop-append_add p after size) at ends in
    (
      drop 2 (drop size after),
      rw (width, drop-append_length p after)
          (sym (take-append-drop size after)
            ∙ ap (λ z. take size after ++ z)
                (sym (take-append-drop 2 (drop size after))
                  ∙ ap (λ z. z ++ drop 2 (drop size after)) end)),
      rw (width, drop-append_length p after) (omega (arith, length-take size after)),
    )

-- The trailers, as text, behind `pre`.
pub record Trailed (out pre s body : Bytes) (k : ℕ) : Type 0 where
  pub lines : List Bytes
  pub rest : Bytes
  pub lines_are : All IsTrailer lines
  pub splits : s ≡ encode_trailer lines ++ rest
  pub body_is : body ≡ out
  pub ends : k ≡ length pre + length (encode_trailer lines)

trailers_no_fuel : (buf out : Bytes) (pos : ℕ) → trailers zero buf out pos ≡ Outcome.out_of_fuel
unfolding trailers
trailers_no_fuel buf out pos = refl

cons-ne-nil : {x : ℕ} {l : Bytes} → (x ∷ l) ≢ []
cons-ne-nil e = cc

trailers_missing :
    (f : ℕ) (buf out body : Bytes) (pos k : ℕ)
    → find_from buf pos crlf ≡ none
    → trailers f buf out pos ≢ returns (BodyStatus.complete body k)
unfolding trailers
trailers_missing zero buf out body pos k h = cc
trailers_missing (suc f) buf out body pos k h = ground arith

-- A blank line ends the trailers; any other is one of them, and the rest follows.
Trailed-line :
    (f : ℕ) (buf out pre line after body : Bytes) (k : ℕ)
    → find_from buf (length pre) crlf ≡ some (length pre + length line)
    → IsLine line
    → trailers (suc f) buf out (length pre) ≡ returns (BodyStatus.complete body k)
    → (trailers f buf out (length (pre ++ (line ++ crlf))) ≡ returns (BodyStatus.complete body k)
        → Trailed out (pre ++ (line ++ crlf)) after body k)
    → Trailed out pre (line ++ (crlf ++ after)) body k
Trailed-line f buf out pre [] after body k found is_line h later =
    let same : length pre + 0 ≡ length pre = omega arith in
    let done = trailers_blank f buf out (length pre) (rw same at found) in
    record {
      lines = [];
      rest = after;
      lines_are = tt;
      splits = refl;
      body_is = cc;
      ends = ground arith;
    }
Trailed-line f buf out pre (x ∷ l) after body k found is_line h later =
    let line : Bytes = x ∷ l in
    let gone : length (pre ++ (line ++ crlf)) ≡ length pre + length line + 2 =
      length_line pre line in
    let step =
      trailers_line f buf out (length pre) (length pre + length line) found (omega arith) in
    let t = later (rw gone (sym step ∙ h)) in
    record {
      lines = line ∷ t.lines;
      rest = t.rest;
      lines_are = ((is_line, cons-ne-nil), t.lines_are);
      splits = ap (λ z. line ++ (crlf ++ z)) t.splits ∙ simp append_assoc;
      body_is = t.body_is;
      ends = omega (arith, t.ends, gone, length-append line (crlf ++ encode_trailer t.lines));
    }

pub trailers-Trailed :
    (f : ℕ) (out pre s body : Bytes) (k : ℕ) (buf : Bytes)
    → buf ≡ pre ++ s
    → trailers f buf out (length pre) ≡ returns (BodyStatus.complete body k)
    → Trailed out pre s body k
trailers-Trailed zero out pre s body k buf e h = cc (trailers_no_fuel buf out (length pre))
trailers-Trailed (suc f) out pre s body k buf e h =
    elim (Option-cases (find_from buf (length pre) crlf)) [
      | inl missing ↦ absurd (trailers_missing (suc f) buf out body (length pre) k missing h)
      | inr (end, found) ↦
          let (line, after, splits, is_line, at) = find_from_line_sound pre s end (rw e at found) in
          let e' : buf ≡ pre ++ (line ++ (crlf ++ after)) = e ∙ ap (λ z. pre ++ z) splits in
          rw splits (
            Trailed-line f buf out pre line after body k (found ∙ ap some at) is_line h (
              trailers-Trailed f out (pre ++ (line ++ crlf)) after body k buf
                (e' ∙ regroup pre line after)))
    ]
