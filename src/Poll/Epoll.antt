-- ===== src/Poll/Epoll.antt =====
-- lc/src/poll/epoll.rs, over the calls of `libc`.
pub mod Masks
mod Tests
use Prim.Native.Nat.{bit_and, bit_or}
use servoxide.Prelude.{
  ℕ, ◌+◌, ◌-◌, ◌/◌, ◌^◌, Bool, true, false, List, [], ◌∷◌, map, Option, none, some, ◌==◌, min, not,
  if◌then◌else◌,
}
use servoxide.Poll.{Interest, Event}

-- The bits that Linux defines.
abbrev pub epollin : ℕ
epollin = 1

abbrev pub epollout : ℕ
epollout = 4

abbrev pub epollerr : ℕ
epollerr = 8

abbrev pub epollhup : ℕ
epollhup = 16

-- `EPOLL_CTL_ADD`, `EPOLL_CTL_DEL` and `EPOLL_CTL_MOD`.
pub data Op : Type 0 where
  ctl_add ctl_delete ctl_modify : Op

-- An `epoll_event`: the descriptor and the bits.
abbrev pub Slot : Type 0
Slot = ℕ × ℕ

-- What `epoll_wait` reports: slots, `EINTR`, or another error.
pub data Waited : Type 0 where
  slots : List Slot → Waited
  interrupted failed : Waited

pub record Epoll : Type 1 where
  pub Os : Type 0
  pub epoll_ctl : Os → Op → Slot → Bool × Os
  pub epoll_wait : Os → Option ℕ → Waited × Os

unfoldable pub mask : Interest → ℕ
mask i =
    let m = if i.readable then bit_or 0 epollin else 0 in
    if i.writable then bit_or m epollout else m

unfoldable pub event_of : Slot → Event
event_of (fd, e) = record {
  fd = fd;
  readable = not (bit_and e (bit_or (bit_or epollin epollhup) epollerr) == 0);
  writable = not (bit_and e epollout == 0);
}

-- A timeout in nanoseconds, as milliseconds; none waits for ever.
unfoldable pub milliseconds : Option ℕ → Option ℕ
milliseconds none = none
milliseconds (some d) = some (min (d / 1000000) (2 ^ 31 - 1))

module _ (ep : Epoll) where
  unfoldable pub ctl : ep.Os → Op → ℕ → Interest → Bool × ep.Os
  unfolding mask
  ctl os op fd i = ep.epoll_ctl os op (fd, mask i)

  unfoldable pub add : ep.Os → ℕ → Interest → Bool × ep.Os
  unfolding ctl
  add os fd i = ctl os Op.ctl_add fd i

  unfoldable pub modify : ep.Os → ℕ → Interest → Bool × ep.Os
  unfolding ctl
  modify os fd i = ctl os Op.ctl_modify fd i

  unfoldable pub delete : ep.Os → ℕ → Bool × ep.Os
  delete os fd = ep.epoll_ctl os Op.ctl_delete (fd, 0)

  -- `none` is an `Err`; a call that was interrupted has no events.
  reported : Waited → Option (List Event)
  unfolding event_of
  reported (Waited.slots ss) = some (map event_of ss)
  reported Waited.interrupted = some []
  reported Waited.failed = none

  unfoldable pub poll : ep.Os → Option ℕ → Option (List Event) × ep.Os
  unfolding reported milliseconds
  poll os timeout = let (w, os') = ep.epoll_wait os (milliseconds timeout) in (reported w, os')
