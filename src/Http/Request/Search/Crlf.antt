-- ===== src/Http/Request/Search/Crlf.antt =====
-- The search for the end of a line (http/request.rs).
use servoxide.Prelude.{
  ℕ, ◌+◌, ◌-◌, ◌≤◌, ◌<◌, ◌≡◌, refl, sym, ◌∙◌, inl, inr, [], ◌∷◌, ◌++◌, none, some, arith, length,
  drop, Option-cases, drop-append_length, take-append_length, length-drop, length-append,
}
use servoxide.Text.{Bytes, starts_with, slice}
use servoxide.Http.Request.Search.{crlf, find_from}
use servoxide.Http.Request.Search.Laws.{
  index_of, find_from-index_of, index_of-Cut, starts_with-append_le, index_of-fits, index_of_tail,
}

index_of-crlf_short : (x : ℕ) (rest : Bytes) → index_of crlf (x ∷ (crlf ++ rest)) ≡ some 1
unfolding index_of starts_with
index_of-crlf_short x rest = ground arith

-- A line with no line end in it is found whole.
index_of-crlf :
    (line rest : Bytes)
    → index_of crlf line ≡ none
    → index_of crlf (line ++ (crlf ++ rest)) ≡ some (length line)
unfolding index_of
index_of-crlf [] rest h = unfold starts_with in refl
index_of-crlf (x ∷ []) rest h = index_of-crlf_short x rest
index_of-crlf (x ∷ y ∷ line) rest h =
    let (st, e) = index_of_tail crlf x (y ∷ line) h in
    rw (
      starts_with-append_le crlf (x ∷ y ∷ line) (crlf ++ rest) (omega arith),
      st,
      index_of-crlf (y ∷ line) rest e,
    )

-- The line that begins behind `pre` ends where it ends.
pub find_from_line :
    (pre line after : Bytes)
    → index_of crlf line ≡ none
    → find_from (pre ++ (line ++ (crlf ++ after))) (length pre) crlf
      ≡ some (length pre + length line)
find_from_line pre line after h = rw (
  find_from-index_of (pre ++ (line ++ (crlf ++ after))) crlf (length pre) (omega arith)
      (omega (arith, length-append pre (line ++ (crlf ++ after)))),
  drop-append_length pre (line ++ (crlf ++ after)),
  index_of-crlf line after h,
)

pub slice-append_length :
    (pre s t : Bytes) → slice (pre ++ (s ++ t)) (length pre) (length pre + length s) ≡ s
slice-append_length pre s t =
    let width : length pre + length s - length pre ≡ length s = omega arith in
    rw (width, drop-append_length pre (s ++ t)) (take-append_length s t)

-- What `find_from` finds behind `pre` is the end of the first line there.
pub find_from_line_sound :
    (pre s : Bytes) (e : ℕ)
    → find_from (pre ++ s) (length pre) crlf ≡ some e
    → (line : Bytes) × (after : Bytes) × (s ≡ line ++ (crlf ++ after))
      × (index_of crlf line ≡ none)
      × (e ≡ length pre + length line)
find_from_line_sound pre s e h =
    let spec =
      find_from-index_of (pre ++ s) crlf (length pre) (omega arith)
        (omega (arith, length-append pre s)) in
    let found = sym (rw (drop-append_length pre s) at spec) ∙ h in
    elim (Option-cases (index_of crlf s)) [
      | inl none_here ↦ absurd (ground arith)
      | inr (i, here) ↦
          let c = index_of-Cut crlf s i here in
          (c.before, c.after, c.splits, c.first, ground (arith, c.at))
    ]

-- A place found lies at or behind the start, and the needle fits there.
pub find_from_bounds :
    (hay n : Bytes) (start e : ℕ)
    → 0 < length n
    → start ≤ length hay
    → find_from hay start n ≡ some e
    → (start ≤ e) × (e + length n ≤ length hay)
find_from_bounds hay n start e p h found =
    let spec = sym (find_from-index_of hay n start p h) ∙ found in
    elim (Option-cases (index_of n (drop start hay))) [
      | inl none_here ↦ absurd (ground arith)
      | inr (i, here) ↦
          let at : start + i ≡ e = ground arith in
          let fits = index_of-fits n (drop start hay) i here in
          (omega (arith, at), omega (arith, at, fits, length-drop start hay))
    ]
