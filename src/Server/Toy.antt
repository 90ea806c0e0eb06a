-- ===== src/Server/Toy.antt =====
-- A system below the server for the tests: one connection waits, and it asks for `/`.
use servoxide.Prelude.{◌≡◌, Bool, true, false, [], ◌∷◌, none, some, arith, length}
use servoxide.Text.{Bytes, codes}
use servoxide.Http.Router.Files.{FileSystem}
use servoxide.Server.State.{System, Read, Write}
use servoxide.Server.Promises.{WritesWithin}

abbrev pub no_files : FileSystem
no_files = record {
  Files = Unit;
  metadata = λ st path. none;
  read = λ st path. none;
  read_dir = λ st path. none;
  canonicalize = λ st path. none;
  create_dir_all = λ st path. (false, st);
  write = λ st path bytes. (false, st);
  remove_file = λ st path. (false, st);
  execute = λ st interpreter script req. (none, st);
}

-- The request's bytes; `\r` and `\n` are written out.
abbrev pub asked : Bytes
unfolding codes
asked = codes "GET / HTTP/1.1\r\nHost: a\r\n\r\n"

-- The state says whether the connection still waits.
abbrev pub toy : System
toy = record {
  files = no_files;
  Os = Bool;
  now = λ os. (7, os);
  random = λ os. ([], os);
  poller_new = λ os. (true, os);
  bind_listener = λ os host port. (some port, os);
  accept = λ os listener. elim os [ true ↦ (some 9, false) | false ↦ (none, false) ];
  set_nonblocking = λ os fd. (true, os);
  close = λ os fd. os;
  read = λ os fd. (Read.bytes asked, os);
  write = λ os fd bytes. (Write.wrote (length bytes), os);
  poller_add = λ os fd i. (true, os);
  poller_modify = λ os fd i. (true, os);
  poller_delete = λ os fd. os;
  poll = λ os. (some (record { fd = 80; readable = true; writable = false } ∷ []), os);
}

pub toy-WritesWithin : WritesWithin toy
toy-WritesWithin os fd bs n h = let e : length bs ≡ n = cc (h) in omega (arith, e)
