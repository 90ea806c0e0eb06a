-- ===== src/Poll/Epoll/Masks.antt =====
-- What a descriptor is registered for in poll/epoll.rs, and what it is reported for.
use servoxide.Prelude.{ℕ, ◌≡◌, refl, Bool, true, false, List, [], ◌∷◌, map, Option, some}
use servoxide.Poll.{Interest, Event}
use servoxide.Poll.Epoll.{Epoll, Slot, Waited, mask, event_of, poll, milliseconds}

abbrev pub Registration : Type 0
Registration = ℕ × Interest

unfoldable pub slot : Registration → Slot
unfolding mask
slot (fd, i) = (fd, mask i)

abbrev pub asked : Registration → Event
asked (fd, i) = record { fd = fd; readable = i.readable; writable = i.writable }

event_of-mask : (fd : ℕ) (i : Interest) → event_of (fd, mask i) ≡ asked (fd, i)
unfolding event_of mask
event_of-mask fd i = go i.readable i.writable
  where
    go :
        (r w : Bool)
        → event_of (fd, mask (record { readable = r; writable = w }))
          ≡ record { fd = fd; readable = r; writable = w }
    go true true = refl
    go true false = refl
    go false true = refl
    go false false = refl

map-asked : (rs : List Registration) → map event_of (map slot rs) ≡ map asked rs
unfolding slot
map-asked [] = refl
map-asked ((fd, i) ∷ rs) = rw (event_of-mask fd i, map-asked rs) refl

module _ (ep : Epoll) where
  -- Where epoll_wait reports descriptors with the bits of interests, poll gives an event for
  -- each, in order, that is readable and writable as the interest is.
  pub poll-registered :
      (os os' : ep.Os) (timeout : Option ℕ) (rs : List Registration)
      → ep.epoll_wait os (milliseconds timeout) ≡ (Waited.slots (map slot rs), os')
      → poll ep os timeout ≡ (some (map asked rs), os')
  unfolding poll
  poll-registered os os' timeout rs waited = rw (waited, map-asked rs) refl
