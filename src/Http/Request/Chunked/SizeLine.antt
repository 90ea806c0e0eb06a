-- ===== src/Http/Request/Chunked/SizeLine.antt =====
-- The size line of a chunk (http/request.rs), by its digits, in terms that do not mention the
-- decoder, and the decoder's reading of it.
use servoxide.Prelude.{
  ℕ, ◌≡◌, ◌<◌, refl, ap, ◌∙◌, true, false, List, [], ◌∷◌, ◌++◌, some, ◌⊎◌, inl, inr, Bool-cases,
  any, ◌==◌, ==_iff, usize_mod,
}
use servoxide.Text.{Bytes, cons_head, well_formed, from_utf8, split, trim}
use servoxide.Text.Numerals.{IsNumeral, from_str_radix-IsNumeral, IsNumeral-from_str_radix}
use servoxide.Http.Request.Chunked.{chunk_size, first_part}

-- The text in front of the first separator, or the whole text if there is none.
pub record IsFront (sep : ℕ) (front s : Bytes) : Type 0 where
  pub after : Bytes
  pub free : any (λ b. b == sep) front ≡ false
  pub cut : (s ≡ front) ⊎ (s ≡ front ++ (sep ∷ after))

-- A line of UTF-8 that states the size `n`: white space may stand around its hexadecimal numeral,
-- and an extension may follow behind a `;`.
pub record IsSizeLine (line : Bytes) (n : ℕ) : Type 0 where
  pub valid : well_formed 0 line ≡ true
  pub front : Bytes
  pub front_is : IsFront b';' front line
  pub numeral : IsNumeral 16 n (trim front)

first_part-cons_head : (x : ℕ) (ps : List Bytes) → first_part (cons_head x ps) ≡ x ∷ first_part ps
unfolding first_part
first_part-cons_head x [] = refl
first_part-cons_head x (p ∷ ps) = refl

first_part-split_at :
    (sep : ℕ) (x : ℕ) (s : Bytes) → (x == sep) ≡ true → first_part (split sep (x ∷ s)) ≡ []
unfolding split first_part
first_part-split_at sep x s at = rw at refl

first_part-split_past :
    (sep : ℕ) (x : ℕ) (s : Bytes)
    → (x == sep) ≡ false
    → first_part (split sep (x ∷ s)) ≡ x ∷ first_part (split sep s)
unfolding split
first_part-split_past sep x s past = rw past (first_part-cons_head x (split sep s))

split-IsFront : (sep : ℕ) (s : Bytes) → IsFront sep (first_part (split sep s)) s
split-IsFront sep [] = unfold split first_part in record { after = []; free = refl; cut = inl refl }
split-IsFront sep (x ∷ s) = elim (Bool-cases (x == sep)) [
  | inl at ↦
      rw (first_part-split_at sep x s at)
        (record { after = s; free = refl; cut = inr (ap (λ y. y ∷ s) ((==_iff x sep).0 at)) })
  | inr past ↦
      (let f = split-IsFront sep s in
        rw (first_part-split_past sep x s past) (record {
          after = f.after;
          free = rw past f.free;
          cut = elim f.cut [ inl e ↦ inl (ap (◌∷◌ x) e) | inr e ↦ inr (ap (◌∷◌ x) e) ];
        }))
]

front_past :
    (sep x : ℕ) (front : Bytes) → any (λ b. b == sep) (x ∷ front) ≡ false → (x == sep) ≡ false
front_past sep x front free = elim (Bool-cases (x == sep)) [
  | inl at ↦ absurd (cc (rw at at free))
  | inr past ↦ past
]

split_whole :
    (sep : ℕ) (front : Bytes)
    → any (λ b. b == sep) front ≡ false
    → first_part (split sep front) ≡ front
split_whole sep [] free = unfold split first_part in refl
split_whole sep (x ∷ front) free =
    let past = front_past sep x front free in
    first_part-split_past sep x front past ∙ ap (◌∷◌ x) (split_whole sep front (rw past at free))

split_cut :
    (sep : ℕ) (front after : Bytes)
    → any (λ b. b == sep) front ≡ false
    → first_part (split sep (front ++ (sep ∷ after))) ≡ front
split_cut sep [] after free = first_part-split_at sep sep after ((==_iff sep sep).1 refl)
split_cut sep (x ∷ front) after free =
    let past = front_past sep x front free in
    first_part-split_past sep x (front ++ (sep ∷ after)) past
    ∙ ap (◌∷◌ x) (split_cut sep front after (rw past at free))

IsFront-split : (sep : ℕ) (front s : Bytes) → IsFront sep front s → first_part (split sep s) ≡ front
IsFront-split sep front s f = elim f.cut [
  | inl e ↦ rw e (split_whole sep front f.free)
  | inr e ↦ rw e (split_cut sep front f.after f.free)
]

pub chunk_size-IsSizeLine : (line : Bytes) (n : ℕ) → chunk_size line ≡ some n → IsSizeLine line n
unfolding chunk_size from_utf8
chunk_size-IsSizeLine line n h = elim (Bool-cases (well_formed 0 line)) [
  | inr bad ↦ absurd (cc (rw bad at h))
  | inl valid ↦ record {
    valid = valid;
    front = first_part (split b';' line);
    front_is = split-IsFront b';' line;
    numeral =
        from_str_radix-IsNumeral 16 usize_mod (trim (first_part (split b';' line))) n
          (rw valid at h);
  }
]

pub IsSizeLine-chunk_size :
    (line : Bytes) (n : ℕ) → n < usize_mod → IsSizeLine line n → chunk_size line ≡ some n
unfolding chunk_size from_utf8
IsSizeLine-chunk_size line n below i =
    rw (i.valid, IsFront-split b';' i.front line i.front_is)
      (IsNumeral-from_str_radix 15 usize_mod below i.numeral)
