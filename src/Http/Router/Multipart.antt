-- ===== src/Http/Router/Multipart.antt =====
-- The multipart parser of http/router.rs.
pub mod SafeName
use servoxide.Prelude.{
  ℕ, zero, suc, ◌+◌, ◌-◌, ◌≡◌, Bool, true, false, ◌||◌, not, List, [], ◌∷◌, ◌++◌, Option, none,
  some, ltb, leb, ◌==◌, if◌then◌else◌, reverse, and_then, option_map, is_empty, length, take, drop,
  any,
}
use servoxide.Text.{
  Bytes, bytes_eq, codes, slice, starts_with, split, split_once, trim, to_ascii_lowercase,
  from_utf8_lossy,
}
use servoxide.Http.Request.Search.{find_range}

-- `find`.
unfoldable pub find : Bytes → Bytes → Option ℕ
unfolding find_range
find hay needle =
    if is_empty needle || ltb (length hay) (length needle)
    then none
    else find_range hay needle (length hay - length needle + 1) 0

-- The loop of `find_all`, with a unit of fuel for each byte.
find_all_loop : ℕ → Bytes → Bytes → ℕ → List ℕ
find_all_loop zero hay needle i = []
find_all_loop (suc f) hay needle i =
    let found = i ∷ find_all_loop f hay needle (i + length needle) in
    let rest = find_all_loop f hay needle (i + 1) in
    if ltb (length hay) (i + length needle)
    then []
    else if bytes_eq (slice hay i (i + length needle)) needle
    then found
    else rest

unfoldable pub find_all : Bytes → Bytes → List ℕ
unfolding find_all_loop
find_all hay needle =
    if is_empty needle || ltb (length hay) (length needle)
    then []
    else find_all_loop (suc (length hay)) hay needle 0

-- `s.trim_matches(c)`, `trim_start_matches(c)` and `trim_end_matches(c)`.
unfoldable pub trim_start_matches : ℕ → Bytes → Bytes
trim_start_matches c [] = []
trim_start_matches c (x ∷ xs) =
    let rest = trim_start_matches c xs in if x == c then rest else x ∷ xs

unfoldable pub trim_end_matches : ℕ → Bytes → Bytes
unfolding trim_start_matches
trim_end_matches c s = reverse (trim_start_matches c (reverse s))

-- The value behind the first `=`.
behind_equals : Bytes → Bytes
behind_equals p = elim (split_once b'=' p) [ none ↦ [] | some (k, v) ↦ v ]

unfoldable pub boundary_part : List Bytes → Option Bytes
unfolding behind_equals
boundary_part [] = none
boundary_part (part ∷ parts) =
    let p = trim part in
    let rest = boundary_part parts in
    if starts_with (codes "boundary=") (to_ascii_lowercase p)
    then some (codes "--" ++ trim_end_matches b'"' (trim_start_matches b'"' (behind_equals p)))
    else rest

unfoldable pub multipart_boundary : Bytes → Option Bytes
unfolding boundary_part
multipart_boundary content_type =
    if not (starts_with (codes "multipart/form-data") (to_ascii_lowercase content_type))
    then none
    else boundary_part (split b';' content_type)

-- `&rest[..rest.find('"').unwrap_or(rest.len())]`.
unfoldable pub up_to_quote : Bytes → Bytes
up_to_quote [] = []
up_to_quote (x ∷ xs) = let rest = up_to_quote xs in if x == b'"' then [] else x ∷ rest

-- `lower.find(..)` is the byte search: lower-casing keeps every length.
unfoldable pub part_filename : Bytes → Option Bytes
unfolding up_to_quote
part_filename headers =
    let text = from_utf8_lossy headers in
    option_map (λ (idx : ℕ). up_to_quote (trim_start_matches b'"' (drop (idx + 9) text)))
      (find (to_ascii_lowercase text) (codes "filename="))

-- `name.rsplit(['/', '\\']).next()`: what stands behind the last separator.
unfoldable pub base_name : Bytes → Bytes
base_name [] = []
base_name (x ∷ xs) =
    let rest = base_name xs in if any (λ c. c == b'/' || c == b'\\') (x ∷ xs) then rest else x ∷ xs

unfoldable pub sanitize_filename : Bytes → Bytes
unfolding base_name
sanitize_filename name =
    let base = trim (base_name name) in
    if bytes_eq base (codes ".") || bytes_eq base (codes "..") then [] else base

-- A part between two delimiters: the closing delimiter is none, and one line end is cut off at
-- each side.
cut_start : Bytes → Bytes
cut_start seg = if starts_with (codes "\r\n") seg then drop 2 seg else seg

cut_end : Bytes → Bytes
cut_end seg = if starts_with (codes "\n\r") (reverse seg) then take (length seg - 2) seg else seg

-- The name to save under, if it is not empty.
named : Bytes → Option Bytes → Option (Bytes × Bytes)
named content none = none
named content (some filename) =
    let safe = sanitize_filename filename in if is_empty safe then none else some (safe, content)

-- The file that a segment carries: its safe name and its content; `none` is a `continue`.
unfoldable pub part_file : Bytes → Option (Bytes × Bytes)
unfolding cut_start cut_end named part_filename sanitize_filename find
part_file seg =
    let body = cut_end (cut_start seg) in
    if starts_with (codes "--") seg
    then none
    else and_then (find body (codes "\r\n\r\n"))
        λ h. named (drop (h + 4) body) (part_filename (take h body))

-- The segments between neighbouring positions, `positions.windows(2)`.
unfoldable pub segments : Bytes → ℕ → List ℕ → List Bytes
segments body width [] = []
segments body width (a ∷ []) = []
segments body width (a ∷ b ∷ ps) = slice body (a + width) b ∷ segments body width (b ∷ ps)
