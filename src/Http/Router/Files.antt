-- ===== src/Http/Router/Files.antt =====
-- The operating system below the router: `std::fs`, and `crate::cgi::execute` as it is called.
use servoxide.Prelude.{Bool, List, Option}
use servoxide.Text.{Bytes}
use servoxide.Http.Request.Types.{Request}

pub data FileKind : Type 0 where
  dir file other : FileKind

-- `none` and `false` are the `Err` of the call. What changes the files returns their new state.
-- `read_dir` gives each readable entry's name and whether it is a directory.
pub record FileSystem : Type 1 where
  pub Files : Type 0
  pub metadata : Files → Bytes → Option FileKind
  pub read : Files → Bytes → Option Bytes
  pub read_dir : Files → Bytes → Option (List (Bytes × Bool))
  pub canonicalize : Files → Bytes → Option Bytes
  pub create_dir_all : Files → Bytes → Bool × Files
  pub write : Files → Bytes → Bytes → Bool × Files
  pub remove_file : Files → Bytes → Bool × Files
  pub execute : Files → Bytes → Bytes → Request → Option Bytes × Files
