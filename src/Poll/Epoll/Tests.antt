-- ===== src/Poll/Epoll/Tests.antt =====
-- The translation of interests and events at concrete descriptors.
use Prim.Native.Nat.{bit_or}
use servoxide.Prelude.{◌≡◌, refl, true, List, [], ◌∷◌, map, some}
use servoxide.Poll.{want_readable, want_writable}
use servoxide.Poll.Epoll.{Epoll, Waited, mask, event_of, poll, epollhup}
use servoxide.Poll.Epoll.Masks.{Registration, slot, asked, poll-registered}

abbrev two : List Registration
two = (5, want_readable) ∷ (6, want_writable) ∷ []

abbrev both_ready : Epoll
both_ready = record {
  Os = Unit;
  epoll_ctl = λ os op slot. (true, os);
  epoll_wait = λ os ms. (Waited.slots (map slot two), os);
}

poll-registered_example : poll both_ready tt (some 1000000000) ≡ (some (map asked two), tt)
poll-registered_example = poll-registered both_ready tt tt (some 1000000000) two refl

-- A hang-up of a descriptor that waits to write is reported as readable, so a read follows.
event_of-hangup :
    event_of (6, bit_or (mask want_writable) epollhup)
    ≡ record { fd = 6; readable = true; writable = true }
unfolding event_of mask
event_of-hangup = refl
