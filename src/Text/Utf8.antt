-- ===== src/Text/Utf8.antt =====
-- `str::from_utf8` and `String::from_utf8_lossy`, by the table of well-formed byte sequences
-- (Unicode 3.9, Table 3-7) that the Rust standard library follows.
pub mod Laws
use servoxide.Prelude.{
  ℕ, zero, suc, Bool, true, false, ◌&&◌, ◌||◌, List, [], ◌∷◌, ◌++◌, leb, ◌==◌, if◌then◌else◌,
  Option, none, some,
}
use servoxide.Text.Compare.{Bytes}

-- What stands at the front: a character, or an ill-formed sequence. The number is that of the
-- bytes behind the first one that belong to it.
pub data Scan : Type 0 where
  valid invalid : ℕ → Scan

abbrev pub within : ℕ → ℕ → ℕ → Bool
within lo hi c = leb lo c && leb c hi

is_cont : ℕ → Bool
is_cont c = within 0x80 0xBF c

-- The second byte that each first byte of three and of four allows.
second3 : ℕ → ℕ → Bool
second3 a b =
    if a == 0xE0
    then within 0xA0 0xBF b
    else if a == 0xED
    then within 0x80 0x9F b
    else within 0x80 0xBF b

second4 : ℕ → ℕ → Bool
second4 a b =
    if a == 0xF0
    then within 0x90 0xBF b
    else if a == 0xF4
    then within 0x80 0x8F b
    else within 0x80 0xBF b

scan2 : Bytes → Scan
unfolding is_cont
scan2 [] = invalid 0
scan2 (b ∷ r) = if is_cont b then valid 1 else invalid 0

scan3 : ℕ → Bytes → Scan
unfolding is_cont second3
scan3 a [] = invalid 0
scan3 a (b ∷ []) = if second3 a b then invalid 1 else invalid 0
scan3 a (b ∷ c ∷ r) = if second3 a b then (if is_cont c then valid 2 else invalid 1) else invalid 0

scan4 : ℕ → Bytes → Scan
unfolding is_cont second4
scan4 a [] = invalid 0
scan4 a (b ∷ []) = if second4 a b then invalid 1 else invalid 0
scan4 a (b ∷ c ∷ []) =
    if second4 a b then (if is_cont c then invalid 2 else invalid 1) else invalid 0
scan4 a (b ∷ c ∷ d ∷ r) =
    if second4 a b
    then (if is_cont c then (if is_cont d then valid 3 else invalid 2) else invalid 1)
    else invalid 0

unfoldable pub scan : ℕ → Bytes → Scan
unfolding scan2 scan3 scan4
scan a rest =
    if leb a 0x7F
    then valid 0
    else if within 0xC2 0xDF a
    then scan2 rest
    else if within 0xE0 0xEF a
    then scan3 a rest
    else if within 0xF0 0xF4 a
    then scan4 a rest
    else invalid 0

-- The number counts the bytes of the present character still to be passed over.
unfoldable pub well_formed : ℕ → Bytes → Bool
well_formed k [] = true
well_formed (suc k) (x ∷ xs) = well_formed k xs
well_formed zero (x ∷ xs) = elim (scan x xs) [ valid k ↦ well_formed k xs | invalid k ↦ false ]

-- `std::str::from_utf8(bytes)`.
unfoldable pub from_utf8 : Bytes → Option Bytes
unfolding well_formed
from_utf8 bs = if well_formed 0 bs then some bs else none

-- Ill-formed sequences become U+FFFD; the flag says whether the bytes passed over are kept.
unfoldable pub lossy : Bool → ℕ → Bytes → Bytes
lossy keep k [] = []
lossy keep (suc k) (x ∷ xs) = let rest = lossy keep k xs in if keep then x ∷ rest else rest
lossy keep zero (x ∷ xs) = elim (scan x xs) [
  | valid k ↦ x ∷ lossy true k xs
  | invalid k ↦ 0xEF ∷ 0xBF ∷ 0xBD ∷ lossy false k xs
]

-- `String::from_utf8_lossy(bytes)`.
unfoldable pub from_utf8_lossy : Bytes → Bytes
unfolding lossy
from_utf8_lossy = lossy true 0
