-- ===== src/Http/Router/Paths.antt =====
-- `std::path` on Unix, as far as the router uses it: a path is its bytes.
use servoxide.Prelude.{
  ◌||◌, List, [], ◌∷◌, ◌++◌, Option, none, some, reverse, is_empty, last?, if◌then◌else◌, and_then,
}
use servoxide.Text.{Bytes, bytes_eq, codes, split, starts_with}
use servoxide.Http.Mime.{rsplit_dot}

pub data Component : Type 0 where
  root_dir cur_dir parent_dir : Component
  normal : Bytes → Component

-- `.` is a component at the very front only; empty pieces are none.
unfoldable pub component : Bytes → List Component → List Component
component piece rest =
    if is_empty piece || bytes_eq piece (codes ".")
    then rest
    else (if bytes_eq piece (codes "..") then parent_dir else normal piece) ∷ rest

unfoldable pub pieces : List Bytes → List Component
pieces [] = []
pieces (p ∷ ps) = component p (pieces ps)

unfoldable pub front : List Bytes → List Component
front [] = []
front (p ∷ ps) = if bytes_eq p (codes ".") then cur_dir ∷ pieces ps else component p (pieces ps)

-- `Path::new(s).components()`.
unfoldable pub components : Bytes → List Component
unfolding component pieces front
components s =
    if starts_with (codes "/") s then root_dir ∷ pieces (split b'/' s) else front (split b'/' s)

-- `Path::new(base).join(rel)`.
unfoldable pub join : Bytes → Bytes → Bytes
join base rel =
    if starts_with (codes "/") rel
    then rel
    else if is_empty base || starts_with (codes "/") (reverse base)
    then base ++ rel
    else base ++ (b'/' ∷ rel)

normal_name : Component → Option Bytes
normal_name (normal p) = some p
normal_name root_dir = none
normal_name cur_dir = none
normal_name parent_dir = none

-- `path.file_name()`.
unfoldable pub file_name : Bytes → Option Bytes
unfolding components normal_name
file_name s = and_then (last? (components s)) normal_name

-- A leading dot alone makes no extension.
ext_of : Option (Bytes × Bytes) → Option Bytes
ext_of none = none
ext_of (some (stem, e)) = if is_empty stem then none else some e

-- `path.extension()`.
unfoldable pub extension : Bytes → Option Bytes
unfolding file_name ext_of
extension s = and_then (file_name s) λ f. ext_of (rsplit_dot f)

-- The pieces of a path backwards, with no empty piece or `.` at the end but the very first.
trim_back : List Bytes → List Bytes
trim_back [] = []
trim_back (p ∷ []) = p ∷ []
trim_back (p ∷ q ∷ ps) =
    let rest = trim_back (q ∷ ps) in
    if is_empty p || bytes_eq p (codes ".") then rest else p ∷ q ∷ ps

join_pieces : List Bytes → Bytes
join_pieces [] = []
join_pieces (p ∷ []) = p
join_pieces (p ∷ q ∷ ps) = p ++ (b'/' ∷ join_pieces (q ∷ ps))

-- The path of such pieces; of a lone empty piece it is the root.
path_of : List Bytes → Bytes
unfolding join_pieces
path_of ([] ∷ []) = codes "/"
path_of ps = join_pieces (reverse ps)

-- What stands before the last component; of a single piece, `""` if it is a component.
before_last : List Bytes → Option Bytes
before_last [] = none
before_last (p ∷ []) = if is_empty p then none else some []
before_last (p ∷ q ∷ ps) = some (path_of (trim_back (q ∷ ps)))

-- `path.parent()`.
unfoldable pub parent : Bytes → Option Bytes
unfolding before_last trim_back path_of
parent s = before_last (trim_back (reverse (split b'/' s)))
