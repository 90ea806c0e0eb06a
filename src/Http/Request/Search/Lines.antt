-- ===== src/Http/Request/Search/Lines.antt =====
-- Lines up to a blank one: where the blank line is found, and how the text splits into lines.
use servoxide.Prelude.{
  ℕ, suc, ◌+◌, ◌≡◌, ◌≢◌, refl, sym, ap, ◌∙◌, false, List, [], ◌∷◌, ◌++◌, inl, inr, Option, none,
  some, All, any, arith, length, length-append, ◌==◌, option_map, Option-cases, append_assoc,
}
use servoxide.Text.{Bytes, starts_with, split_crlf, cons_head}
use servoxide.Http.Request.Search.{crlf, crlf2}
use servoxide.Http.Request.Search.Laws.{index_of, index_of_tail, starts_with-append_le}

-- A text with no line end in it.
abbrev pub IsLine : Bytes → Type 0
IsLine s = index_of crlf s ≡ none

abbrev pub IsTrailer : Bytes → Type 0
IsTrailer t = IsLine t × (t ≢ [])

-- Each line with its end, and a blank line.
abbrev pub encode_trailer : List Bytes → Bytes
encode_trailer [] = crlf
encode_trailer (t ∷ ts) = t ++ (crlf ++ encode_trailer ts)

-- The same without the last line's end and the blank line.
abbrev pub join_lines : Bytes → List Bytes → Bytes
join_lines l [] = l
join_lines l (t ∷ ts) = l ++ (crlf ++ join_lines t ts)

pub encode_trailer-join_lines :
    (l : Bytes) (ts : List Bytes) (rest : Bytes)
    → encode_trailer (l ∷ ts) ++ rest ≡ join_lines l ts ++ (crlf2 ++ rest)
encode_trailer-join_lines l [] rest = append_assoc l _ rest
encode_trailer-join_lines l (t ∷ ts) rest =
    append_assoc l _ rest
    ∙ ap (λ z. l ++ (crlf ++ z)) (encode_trailer-join_lines t ts rest)
    ∙ sym (append_assoc l _ _)

-- A text with no carriage return is a line.
abbrev pub NoCr : Bytes → Type 0
NoCr s = any (λ c. c == b'\r') s ≡ false

pub NoCr-IsLine : (s : Bytes) → NoCr s → IsLine s
unfolding index_of starts_with
NoCr-IsLine [] h = refl
NoCr-IsLine (x ∷ s) h = ground (arith, NoCr-IsLine s)

pub NoCr-append : (s t : Bytes) → NoCr s → NoCr t → NoCr (s ++ t)
NoCr-append [] t h k = k
NoCr-append (x ∷ s) t h k = ground (arith, NoCr-append s t)

starts_with-crlf2-false :
    (x : ℕ) (s : Bytes) → starts_with crlf (x ∷ s) ≡ false → starts_with crlf2 (x ∷ s) ≡ false
unfolding starts_with
starts_with-crlf2-false x [] h = ground arith
starts_with-crlf2-false x (y ∷ s) h = ground arith

-- A line that goes on with anything but its end begins no line end.
starts_with-line :
    (x : ℕ) (l rest : Bytes) → IsLine (x ∷ l) → starts_with crlf (x ∷ (l ++ (crlf ++ rest))) ≡ false
starts_with-line x [] rest h = unfold starts_with in ground arith
starts_with-line x (y ∷ l) rest h =
    starts_with-append_le crlf (x ∷ y ∷ l) (crlf ++ rest) (omega arith)
    ∙ (index_of_tail crlf x (y ∷ l) h).0

option_map-zero : (o : Option ℕ) → o ≡ option_map (λ k. 0 + k) o
option_map-zero none = refl
option_map-zero (some k) = ground arith

option_map-suc :
    (n : ℕ) (o : Option ℕ)
    → option_map suc (option_map (λ k. n + k) o) ≡ option_map (λ k. suc n + k) o
option_map-suc n none = refl
option_map-suc n (some k) = ground arith

index_of_skip :
    (n : Bytes) (x : ℕ) (s : Bytes)
    → starts_with n (x ∷ s) ≡ false
    → index_of n (x ∷ s) ≡ option_map suc (index_of n s)
unfolding index_of
index_of_skip n x s h = rw h

-- The blank line does not begin within a line.
index_of-crlf2_line :
    (l rest : Bytes)
    → IsLine l
    → index_of crlf2 (l ++ (crlf ++ rest))
      ≡ option_map (λ k. length l + k) (index_of crlf2 (crlf ++ rest))
index_of-crlf2_line [] rest h = option_map-zero (index_of crlf2 (crlf ++ rest))
index_of-crlf2_line (x ∷ l) rest h =
    index_of_skip crlf2 x (l ++ (crlf ++ rest))
      (starts_with-crlf2-false x (l ++ (crlf ++ rest)) (starts_with-line x l rest h))
    ∙ ap (option_map suc) (index_of-crlf2_line l rest (index_of_tail crlf x l h).1)
    ∙ option_map-suc (length l) (index_of crlf2 (crlf ++ rest))

index_of-crlf2_blank : (rest : Bytes) → index_of crlf2 (crlf2 ++ rest) ≡ some 0
unfolding index_of starts_with
index_of-crlf2_blank rest = refl

-- Nor at the end of a line that another follows.
index_of-crlf2_end :
    (s : Bytes)
    → starts_with crlf s ≡ false
    → index_of crlf2 (crlf ++ s) ≡ option_map (λ k. 2 + k) (index_of crlf2 s)
unfolding index_of starts_with
index_of-crlf2_end s h = elim (Option-cases (index_of crlf2 s)) [
  | inl e ↦ ground arith
  | inr (k, e) ↦ ground arith
]

join_lines-starts :
    (l : Bytes) (ts : List Bytes) (rest : Bytes)
    → IsTrailer l
    → starts_with crlf (join_lines l ts ++ (crlf ++ rest)) ≡ false
join_lines-starts [] ts rest h = absurd (h.1 refl)
join_lines-starts (x ∷ l) [] rest h = starts_with-line x l rest h.0
join_lines-starts (x ∷ l) (t ∷ ts) rest h =
    ap (starts_with crlf) (append_assoc (x ∷ l) _ _)
    ∙ starts_with-line x l (join_lines t ts ++ (crlf ++ rest)) h.0

-- The blank line is found behind the last line, whatever follows it.
pub index_of-crlf2-join_lines :
    (l : Bytes) (ts : List Bytes) (rest : Bytes)
    → IsTrailer l
    → All IsTrailer ts
    → index_of crlf2 (join_lines l ts ++ (crlf2 ++ rest)) ≡ some (length (join_lines l ts))
index_of-crlf2-join_lines l [] rest h all =
    index_of-crlf2_line l (crlf ++ rest) h.0
    ∙ ap (option_map (λ k. length l + k)) (index_of-crlf2_blank rest)
    ∙ ap some (omega arith)
index_of-crlf2-join_lines l (t ∷ ts) rest h (here, all) =
    let s : Bytes = join_lines t ts ++ (crlf2 ++ rest) in
    let ih = index_of-crlf2-join_lines t ts rest here all in
    ap (index_of crlf2) (append_assoc l _ _)
    ∙ index_of-crlf2_line l s h.0
    ∙ ap (option_map (λ k. length l + k)) (
        index_of-crlf2_end s (join_lines-starts t ts (crlf ++ rest) here)
        ∙ ap (option_map (λ k. 2 + k)) ih)
    ∙ ap some (omega (arith, length-append l (crlf ++ join_lines t ts)))

split_crlf_skip :
    (x y : ℕ) (s : Bytes)
    → starts_with crlf (x ∷ y ∷ s) ≡ false
    → split_crlf (x ∷ y ∷ s) ≡ cons_head x (split_crlf (y ∷ s))
unfolding split_crlf starts_with
split_crlf_skip x y s h = ground arith

split_crlf_end : (s : Bytes) → split_crlf (crlf ++ s) ≡ [] ∷ split_crlf s
unfolding split_crlf
split_crlf_end s = refl

split_crlf_line : (l s : Bytes) → IsLine l → split_crlf (l ++ (crlf ++ s)) ≡ l ∷ split_crlf s
split_crlf_line [] s h = split_crlf_end s
split_crlf_line (x ∷ []) s h =
    split_crlf_skip x b'\r' (b'\n' ∷ s) (starts_with-line x [] s h)
    ∙ ap (cons_head x) (split_crlf_end s)
split_crlf_line (x ∷ y ∷ l) s h =
    split_crlf_skip x y (l ++ (crlf ++ s)) (starts_with-line x (y ∷ l) s h)
    ∙ ap (cons_head x) (split_crlf_line (y ∷ l) s (index_of_tail crlf x (y ∷ l) h).1)

split_crlf_whole : (l : Bytes) → IsLine l → split_crlf l ≡ l ∷ []
split_crlf_whole [] h = unfold split_crlf in refl
split_crlf_whole (x ∷ []) h = unfold split_crlf in refl
split_crlf_whole (x ∷ y ∷ l) h =
    let (st, t) = index_of_tail crlf x (y ∷ l) h in
    split_crlf_skip x y l st ∙ ap (cons_head x) (split_crlf_whole (y ∷ l) t)

-- Splitting undoes joining.
pub split_crlf-join_lines :
    (l : Bytes) (ts : List Bytes)
    → IsLine l
    → All IsTrailer ts
    → split_crlf (join_lines l ts) ≡ l ∷ ts
split_crlf-join_lines l [] h all = split_crlf_whole l h
split_crlf-join_lines l (t ∷ ts) h (here, all) =
    split_crlf_line l (join_lines t ts) h ∙ ap (◌∷◌ l) (split_crlf-join_lines t ts here.0 all)
