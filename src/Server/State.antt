-- ===== src/Server/State.antt =====
-- The state of server/mod.rs, and the system calls below it.
use servoxide.Prelude.{ℕ, ◌*◌, Bool, false, List, [], Option}
use servoxide.Text.{Bytes}
use servoxide.Dict.{Dict}
use servoxide.Config.Types.{ServerConfig}
use servoxide.Cookies.{SessionStore}
use servoxide.Http.Router.Files.{FileSystem}
use servoxide.Poll.{Interest, Event}
use servoxide.Server.Select.{Address}

-- A connection. A point of time is a number of nanoseconds.
pub record Client : Type 0 where
  pub addr_idx : ℕ
  pub inbuf : Bytes
  pub outbuf : Bytes
  pub written : ℕ
  pub keep_alive : Bool
  pub pending_len : ℕ
  pub last_activity : ℕ

abbrev pub new_client : ℕ → ℕ → Client
new_client addr_idx now = record {
  addr_idx = addr_idx;
  inbuf = [];
  outbuf = [];
  written = 0;
  keep_alive = false;
  pending_len = 0;
  last_activity = now;
}

abbrev pub idle_timeout : ℕ
idle_timeout = 60 * 1000000000

abbrev pub request_timeout : ℕ
request_timeout = 30 * 1000000000

-- `libc::read`: some bytes, the end of the stream, `EAGAIN`, or another error.
pub data Read : Type 0 where
  bytes : Bytes → Read
  eof again failed : Read

-- `libc::write`: a number of bytes, `EAGAIN`, or another error.
pub data Write : Type 0 where
  wrote : ℕ → Write
  again failed : Write

-- The calls that server/mod.rs makes of `libc`, of net.rs and of the poller, and the file system
-- of the router. A call returns the new state of the system; `false` and `none` are failures.
pub record System : Type 1 where
  pub files : FileSystem
  pub Os : Type 0
  pub now : Os → ℕ × Os
  pub random : Os → Bytes × Os
  pub poller_new : Os → Bool × Os
  pub bind_listener : Os → List ℕ → ℕ → Option ℕ × Os
  pub accept : Os → ℕ → Option ℕ × Os
  pub set_nonblocking : Os → ℕ → Bool × Os
  pub close : Os → ℕ → Os
  pub read : Os → ℕ → Read × Os
  pub write : Os → ℕ → Bytes → Write × Os
  pub poller_add : Os → ℕ → Interest → Bool × Os
  pub poller_modify : Os → ℕ → Interest → Bool × Os
  pub poller_delete : Os → ℕ → Os
  pub poll : Os → Option (List Event) × Os

-- `Server`, with the configuration's servers, the system and the files.
pub record State (sys : System) : Type 0 where
  pub servers : List ServerConfig
  pub addresses : List Address
  pub listener_addr : Dict ℕ ℕ
  pub clients : Dict ℕ Client
  pub sessions : SessionStore
  pub os : sys.Os
  pub stored : sys.files.Files
