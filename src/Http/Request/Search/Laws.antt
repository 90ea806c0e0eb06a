-- ===== src/Http/Request/Search/Laws.antt =====
-- `find_from` against a search by recursion on the text, and the laws of that search.
use servoxide.Prelude.{
  ℕ, zero, suc, ◌+◌, ◌-◌, ◌≤◌, ◌<◌, ◌≡◌, refl, sym, ap, inl, inr, Bool, true, false, [], ◌∷◌, ◌++◌,
  Option, none, some, arith, ltb, if◌then◌else◌, length, take, drop, option_map, Bool-cases,
  Option-cases, length-drop, length-append, ltb→lt, ◌⊎◌,
}
use servoxide.Text.{Bytes, bytes_eq, starts_with, slice}
use servoxide.Http.Request.Search.{find_range, find_from}

-- The first place where the needle begins.
unfoldable pub index_of : Bytes → Bytes → Option ℕ
unfolding starts_with
index_of needle [] = none
index_of needle (x ∷ xs) =
    if starts_with needle (x ∷ xs) then some 0 else option_map suc (index_of needle xs)

bytes_eq-take : (n s : Bytes) → bytes_eq (take (length n) s) n ≡ starts_with n s
unfolding bytes_eq starts_with
bytes_eq-take [] s = refl
bytes_eq-take (x ∷ n) [] = refl
bytes_eq-take (x ∷ n) (y ∷ s) = ground (arith, bytes_eq-take n s)

starts_with-short : (n s : Bytes) → length s < length n → starts_with n s ≡ false
unfolding starts_with
starts_with-short [] s h = absurd (omega arith)
starts_with-short (x ∷ n) [] h = refl
starts_with-short (x ∷ n) (y ∷ s) h = ground (arith, starts_with-short n s)

index_of-short : (n s : Bytes) → length s < length n → index_of n s ≡ none
unfolding index_of
index_of-short n [] h = refl
index_of-short n (x ∷ s) h = rw (starts_with-short n (x ∷ s) h, index_of-short n s (omega arith))

-- What one more round of the search sees: the byte at `i`, which there is.
drop_step : (i : ℕ) (s : Bytes) → i < length s → (x : ℕ) × (drop i s ≡ x ∷ drop (i + 1) s)
drop_step zero [] h = absurd (omega arith)
drop_step zero (x ∷ s) h = (x, refl)
drop_step (suc i) [] h = absurd (omega arith)
drop_step (suc i) (x ∷ s) h =
    let (y, e) = drop_step i s (omega arith) in
    let shift : suc i + 1 ≡ suc (i + 1) = omega arith in (y, rw shift e)

slice-starts_with :
    (hay n : Bytes) (i : ℕ) → bytes_eq (slice hay i (i + length n)) n ≡ starts_with n (drop i hay)
slice-starts_with hay n i =
    let width : i + length n - i ≡ length n = omega arith in rw width (bytes_eq-take n (drop i hay))

shift_hit :
    (b : Bool) (i : ℕ) (r : Option ℕ)
    → (if b then some i else option_map (λ k. i + 1 + k) r)
      ≡ option_map (λ k. i + k) (if b then some 0 else option_map suc r)
shift_hit true i r = ground arith
shift_hit false i none = refl
shift_hit false i (some k) = ground arith

find_range-index_of :
    (hay n : Bytes) (count i : ℕ)
    → 0 < length n
    → i + count + length n ≡ length hay + 1
    → find_range hay n count i ≡ option_map (λ k. i + k) (index_of n (drop i hay))
unfolding find_range index_of
find_range-index_of hay n zero i p e =
    rw (index_of-short n (drop i hay) (omega (arith, length-drop i hay)))
find_range-index_of hay n (suc count) i p e =
    let (x, d) = drop_step i hay (omega arith) in
    let ih = find_range-index_of hay n count (i + 1) p (omega arith) in
    rw (slice-starts_with hay n i, ih, d)
      (shift_hit (starts_with n (x ∷ drop (i + 1) hay)) i (index_of n (drop (i + 1) hay)))

-- The search of a needle that is not empty, from a start in the buffer, finds exactly its first
-- place at or behind the start.
pub find_from-index_of :
    (hay n : Bytes) (start : ℕ)
    → 0 < length n
    → start ≤ length hay
    → find_from hay start n ≡ option_map (λ k. start + k) (index_of n (drop start hay))
unfolding find_from
find_from-index_of hay [] start p h = absurd (omega arith)
find_from-index_of hay (x ∷ n) start p h =
    elim (Bool-cases (ltb (length hay) (start + length (x ∷ n)))) [
      | inl short ↦ rw (
        short,
        index_of-short (x ∷ n) (drop start hay)
            (omega (arith, ltb→lt _ _ short, length-drop start hay)),
      )
      | inr fits ↦ rw fits (
          find_range-index_of hay (x ∷ n) (length hay - length (x ∷ n) + 1 - start) start p
            (ground arith))
    ]

starts_with-append : (n s t : Bytes) → starts_with n s ≡ true → starts_with n (s ++ t) ≡ true
unfolding starts_with
starts_with-append [] s t h = refl
starts_with-append (x ∷ n) [] t h = cc
starts_with-append (x ∷ n) (y ∷ s) t h = ground (arith, starts_with-append n s t)

starts_with-split : (n s : Bytes) → starts_with n s ≡ true → s ≡ n ++ drop (length n) s
unfolding starts_with
starts_with-split [] s h = refl
starts_with-split (x ∷ n) [] h = cc
starts_with-split (x ∷ n) (y ∷ s) h = ground (arith, starts_with-split n s)

starts_with_self : (n t : Bytes) → starts_with n (n ++ t) ≡ true
unfolding starts_with
starts_with_self [] t = refl
starts_with_self (x ∷ n) t = ground (arith, starts_with_self n t)

index_of-cases :
    (n : Bytes) (x : ℕ) (s : Bytes) (i : ℕ)
    → index_of n (x ∷ s) ≡ some i
    → ((i ≡ 0) × (starts_with n (x ∷ s) ≡ true))
      ⊎ ((j : ℕ) × (i ≡ suc j) × (starts_with n (x ∷ s) ≡ false) × (index_of n s ≡ some j))
unfolding index_of
index_of-cases n x s i h = elim (Option-cases (index_of n s)) [
  | inl e ↦ ground arith
  | inr (j, e) ↦ ground arith
]

-- A place in a text where the needle stands, and the text around it.
pub record Cut (n s : Bytes) (i : ℕ) : Type 0 where
  pub before : Bytes
  pub after : Bytes
  pub splits : s ≡ before ++ (n ++ after)
  pub at : length before ≡ i
  pub first : index_of n before ≡ none

starts_with-prefix : (n s t : Bytes) → starts_with n (s ++ t) ≡ false → starts_with n s ≡ false
starts_with-prefix n s t h = elim (Bool-cases (starts_with n s)) [
  | inl e ↦ cc (starts_with-append n s t e)
  | inr e ↦ e
]

pub index_of-Cut : (n s : Bytes) (i : ℕ) → index_of n s ≡ some i → Cut n s i
unfolding index_of
index_of-Cut n [] i h = cc
index_of-Cut n (x ∷ s) i h = elim (index_of-cases n x s i h) [
  | inl (z, st) ↦ record {
    before = [];
    after = drop (length n) (x ∷ s);
    splits = starts_with-split n (x ∷ s) st;
    at = sym z;
    first = refl;
  }
  | inr (j, e, st, r) ↦
      let c = index_of-Cut n s j r in
      record {
        before = x ∷ c.before;
        after = c.after;
        splits = ap (◌∷◌ x) c.splits;
        at = omega (arith, c.at);
        first =
            rw (starts_with-prefix n (x ∷ c.before) (n ++ c.after) (rw c.splits at st), c.first);
      }
]

pub starts_with-append_le :
    (n s t : Bytes) → length n ≤ length s → starts_with n (s ++ t) ≡ starts_with n s
unfolding starts_with
starts_with-append_le [] s t h = refl
starts_with-append_le (x ∷ n) [] t h = absurd (omega arith)
starts_with-append_le (x ∷ n) (y ∷ s) t h = ground (arith, starts_with-append_le n s t)

pub index_of-fits : (n s : Bytes) (i : ℕ) → index_of n s ≡ some i → i + length n ≤ length s
index_of-fits n s i h =
    let c = index_of-Cut n s i h in
    omega (
      arith,
      c.at,
      ap length c.splits,
      length-append c.before (n ++ c.after),
      length-append n c.after,
    )

-- What follows the first place does not move it.
pub index_of-append : (n s t : Bytes) (i : ℕ) → index_of n s ≡ some i → index_of n (s ++ t) ≡ some i
unfolding index_of
index_of-append n [] t i h = cc
index_of-append n (x ∷ s) t i h = elim (index_of-cases n x s i h) [
  | inl (z, st) ↦ rw (starts_with-append n (x ∷ s) t st, z)
  | inr (j, e, st, r) ↦
      let fits : length n ≤ length (x ∷ s) = omega (arith, index_of-fits n s j r) in
      rw (starts_with-append_le n (x ∷ s) t fits, st, index_of-append n s t j r, e)
]

pub index_of_tail :
    (n : Bytes) (x : ℕ) (s : Bytes)
    → index_of n (x ∷ s) ≡ none
    → (starts_with n (x ∷ s) ≡ false) × (index_of n s ≡ none)
unfolding index_of
index_of_tail n x s h = elim (Option-cases (index_of n s)) [
  | inl e ↦ ground arith
  | inr (j, e) ↦ ground arith
]
