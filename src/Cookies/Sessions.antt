-- ===== src/Cookies/Sessions.antt =====
-- What the session store keeps (lc/src/cookies/mod.rs).
use servoxide.Prelude.{
  ℕ, ◌-◌, ◌≡◌, refl, Bool, true, false, [], ◌∷◌, Option, none, some, ltb, arith, any, not, inl, inr,
  Option-cases, wrapping_add,
}
use servoxide.Text.{Bytes}
use servoxide.Dict.{
  Dict, lookup, insert, update, retain, text_eq, lookup-insert, lookup-update, beq_self,
}
use servoxide.Cookies.{
  Session, SessionStore, session_cookie, session_ttl, cookie_value, is_live, evict_expired,
  random_id, visit, touch_session, existing, touch,
}

lookup-retain :
    (keep : Session → Bool) (k : Bytes) (m : Dict Bytes Session) (s : Session)
    → lookup k m ≡ some s
    → keep s ≡ true
    → lookup k (retain keep m) ≡ some s
unfolding lookup retain
lookup-retain keep k [] s h kept = ground (arith, h)
lookup-retain keep k ((j, v) ∷ m) s h kept = ground (arith, h, kept, lookup-retain keep k m s)

existing_held :
    (store : SessionStore) (c : Option Bytes) (id : Bytes) (s : Session)
    → existing store c ≡ some (id, s)
    → lookup id store.sessions ≡ some s
unfolding existing
existing_held store none id s h = ground (arith, h)
existing_held store (some c) id s h = elim (Option-cases (cookie_value c session_cookie)) [
  | inl e ↦ ground (arith, h, e)
  | inr (name, e) ↦ elim (Option-cases (lookup name store.sessions)) [
    | inl e' ↦ ground (arith, h, e, e')
    | inr (found, e') ↦ grind (arith, h, e, e')
  ]
]

touched :
    (store : SessionStore) (now : ℕ) (buf : Bytes) (e : Option (Bytes × Session))
    → ((id : Bytes) (s : Session) → e ≡ some (id, s) → lookup id store.sessions ≡ some s)
    → let (info, store') = touch_session store now buf e in
      lookup info.id store'.sessions ≡ some (record { visits = info.visits; last_seen = now })
unfolding touch_session visit
touched store now buf none held =
    rw (lookup-insert (random_id buf) (random_id buf), beq_self (random_id buf)) refl
touched store now buf (some (id, s)) held =
    rw (lookup-update id id, beq_self id, held id s refl) refl

-- A request whose cookie names a session that the store holds, live.
returning :
    (store : SessionStore) (now : ℕ) (buf c id : Bytes) (s : Session)
    → lookup id store.sessions ≡ some s
    → is_live now s ≡ true
    → cookie_value c session_cookie ≡ some id
    → let info = (touch store now buf (some c)).0 in
      (info.id ≡ id) × (info.is_new ≡ false) × (info.visits ≡ wrapping_add s.visits 1)
unfolding touch touch_session existing evict_expired
returning store now buf c id s held live names =
    rw (names, lookup-retain (is_live now) id store.sessions s held live) (refl, refl, refl)

-- A visit that names the session of the visit before, within the time to live, is not new, is of
-- the same session, and its visits are one more (in 64 bits).
pub touch-touch :
    (store : SessionStore) (now now' : ℕ) (buf buf' : Bytes) (c : Option Bytes) (c' : Bytes)
    → cookie_value c' session_cookie ≡ some (touch store now buf c).0.id
    → ltb (now' - now) session_ttl ≡ true
    → let (first, store') = touch store now buf c in
      let second = (touch store' now' buf' (some c')).0 in
      (second.id ≡ first.id)
      × (second.is_new ≡ false)
      × (second.visits ≡ wrapping_add first.visits 1)
unfolding touch is_live
touch-touch store now now' buf buf' c c' names soon =
    let live = evict_expired store now in
    returning (touch store now buf c).1 now' buf' c' (touch store now buf c).0.id
      (record { visits = (touch store now buf c).0.visits; last_seen = now })
      (touched live now buf (existing live c) (existing_held live c)) soon names

-- No session of the store is past its time to live.
abbrev pub all_live : ℕ → Dict Bytes Session → Bool
all_live now m = not (any (λ (e : Bytes × Session). not (is_live now e.1)) m)

retain-live : (now : ℕ) (m : Dict Bytes Session) → all_live now (retain (is_live now) m) ≡ true
unfolding retain
retain-live now [] = refl
retain-live now ((k, s) ∷ m) = ground (arith, retain-live now m)

insert-live :
    (now : ℕ) (k : Bytes) (s : Session) (m : Dict Bytes Session)
    → is_live now s ≡ true
    → all_live now m ≡ true
    → all_live now (insert k s m) ≡ true
unfolding insert
insert-live now k s [] new h = ground (arith, new)
insert-live now k s ((j, v) ∷ m) new h = ground (arith, new, h, insert-live now k s m new)

update-live :
    (now : ℕ) (k : Bytes) (m : Dict Bytes Session)
    → all_live now m ≡ true
    → all_live now (update k (visit now) m) ≡ true
unfolding update visit is_live
update-live now k [] h = refl
update-live now k ((j, v) ∷ m) h = ground (arith, h, update-live now k m)

touch_session-live :
    (store : SessionStore) (now : ℕ) (buf : Bytes) (e : Option (Bytes × Session))
    → all_live now store.sessions ≡ true
    → all_live now (touch_session store now buf e).1.sessions ≡ true
unfolding touch_session is_live
touch_session-live store now buf none h =
    insert-live now (random_id buf) (record { visits = 1; last_seen = now }) store.sessions
      (ground arith) h
touch_session-live store now buf (some (id, s)) h = update-live now id store.sessions h

-- After every visit, each session that the store holds is within its time to live, whatever the
-- request names.
pub touch-all_live :
    (store : SessionStore) (now : ℕ) (buf : Bytes) (c : Option Bytes)
    → all_live now (touch store now buf c).1.sessions ≡ true
unfolding touch evict_expired
touch-all_live store now buf c =
    let live = evict_expired store now in
    touch_session-live live now buf (existing live c) (retain-live now store.sessions)
