-- ===== src/Cookies.antt =====
-- lc/src/cookies/mod.rs. A point of time is a number of nanoseconds, and the bytes that
-- `/dev/urandom` or the clock yields are an argument. A `u64` is as wide as a `usize`.
pub mod Sessions
mod Tests
use servoxide.Prelude.{
  ℕ, ◌+◌, ◌-◌, ◌*◌, ◌/◌, ◌%◌, Bool, true, false, List, [], ◌∷◌, ◌++◌, Option, none, some, ltb,
  if◌then◌else◌, and_then, is_some, wrapping_add,
}
use servoxide.Text.{Bytes, bytes_eq, codes, split, split_once, trim}
use servoxide.Dict.{Dict, lookup, insert, update, retain, contains_key, text_eq}

abbrev pub session_cookie : Bytes
session_cookie = codes "session_id"

abbrev pub session_ttl : ℕ
session_ttl = 30 * 60 * 1000000000

pub record Session : Type 0 where
  pub visits : ℕ
  pub last_seen : ℕ

pub record SessionInfo : Type 0 where
  pub id : Bytes
  pub is_new : Bool
  pub visits : ℕ

pub record SessionStore : Type 0 where
  pub sessions : Dict Bytes Session

abbrev pub new : SessionStore
new = record { sessions = [] }

-- The pair's value, if it is the one wanted.
pair_value : Bytes → Option (Bytes × Bytes) → Option Bytes
pair_value name none = none
pair_value name (some (k, v)) = if bytes_eq (trim k) name then some (trim v) else none

first_value : Bytes → List Bytes → Option Bytes
unfolding pair_value
first_value name [] = none
first_value name (pair ∷ pairs) = elim (pair_value name (split_once b'=' (trim pair))) [
  | some v ↦ some v
  | none ↦ first_value name pairs
]

unfoldable pub cookie_value : Bytes → Bytes → Option Bytes
unfolding first_value
cookie_value header name = first_value name (split b';' header)

-- `duration_since` is zero for a later point of time.
unfoldable pub is_live : ℕ → Session → Bool
is_live now s = ltb (now - s.last_seen) session_ttl

unfoldable pub evict_expired : SessionStore → ℕ → SessionStore
unfolding is_live
evict_expired store now = record { sessions = retain (is_live now) store.sessions }

hex_digit : ℕ → ℕ
hex_digit d = if ltb d 10 then b'0' + d else b'a' + (d - 10)

-- `format!("{b:02x}")` of each byte of the buffer.
unfoldable pub random_id : Bytes → Bytes
unfolding hex_digit
random_id [] = []
random_id (b ∷ bs) = hex_digit (b / 16) ∷ hex_digit (b % 16) ∷ random_id bs

unfoldable pub set_cookie_header : Bytes → Bytes
set_cookie_header id =
    session_cookie ++ (codes "=" ++ (id ++ codes "; Path=/; HttpOnly; SameSite=Lax"))

unfoldable pub visit : ℕ → Session → Session
visit now s = record { visits = wrapping_add s.visits 1; last_seen = now }

-- The two arms of the `match` on the session named and held.
unfoldable pub touch_session :
    SessionStore → ℕ → Bytes → Option (Bytes × Session) → SessionInfo × SessionStore
unfolding visit
touch_session store now buf (some (id, s)) = (
  record { id = id; is_new = false; visits = wrapping_add s.visits 1 },
  record { sessions = update id (visit now) store.sessions },
)
touch_session store now buf none = (
  record { id = random_id buf; is_new = true; visits = 1 },
  record {
    sessions = insert (random_id buf) (record { visits = 1; last_seen = now }) store.sessions;
  },
)

-- The session that the header names, if the store has it.
unfoldable pub existing : SessionStore → Option Bytes → Option (Bytes × Session)
existing store cookie_header =
    and_then (and_then cookie_header λ h. cookie_value h session_cookie)
      λ id. and_then (lookup id store.sessions) λ s. some (id, s)

unfoldable pub touch : SessionStore → ℕ → Bytes → Option Bytes → SessionInfo × SessionStore
unfolding touch_session existing evict_expired
touch store now buf cookie_header =
    let live = evict_expired store now in touch_session live now buf (existing live cookie_header)
