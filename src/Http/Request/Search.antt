-- ===== src/Http/Request/Search.antt =====
-- The byte search of http/request.rs, `find_from`.
pub mod Laws
pub mod Crlf
pub mod Lines
use servoxide.Prelude.{
  ℕ, zero, suc, ◌+◌, ◌-◌, ◌||◌, [], ◌∷◌, Option, none, some, ltb, if◌then◌else◌, length, is_empty,
}
use servoxide.Text.{Bytes, bytes_eq, slice}

-- `"\r\n"` and `"\r\n\r\n"`.
abbrev pub crlf : Bytes
crlf = b'\r' ∷ b'\n' ∷ []

abbrev pub crlf2 : Bytes
crlf2 = b'\r' ∷ b'\n' ∷ b'\r' ∷ b'\n' ∷ []

-- `(i..i + count).find(|&i| &haystack[i..i + needle.len()] == needle)`.
unfoldable pub find_range : Bytes → Bytes → ℕ → ℕ → Option ℕ
find_range haystack needle zero i = none
find_range haystack needle (suc count) i =
    let rest = find_range haystack needle count (i + 1) in
    if bytes_eq (slice haystack i (i + length needle)) needle then some i else rest

unfoldable pub find_from : Bytes → ℕ → Bytes → Option ℕ
unfolding find_range
find_from haystack start needle =
    if is_empty needle || ltb (length haystack) (start + length needle)
    then none
    else find_range haystack needle (length haystack - length needle + 1 - start) start
