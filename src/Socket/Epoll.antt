-- ===== src/Socket/Epoll.antt =====
-- gateserver/socket_epoll.h: the class socket_poll over the epoll of the system. An interest list
-- of the system holds, for a descriptor, the events asked for and the pointer stored with them; a
-- pointer is a slot, `none` where it is null.
pub mod Interest
mod Tests
use Prim.Native.Nat.{bit_and, bit_or}
use canna.Prelude.{
  ℕ, ◌+◌, ◌*◌, ◌/◌, ◌%◌, ◌^◌, ◌≡◌, ◌≢◌, Bool, true, false, List, [], ◌∷◌, Option, none, some,
  if◌then◌else◌, ◌==◌, not, take, map, length,
}
use canna.Socket.Types.{Event, max_event}

-- EPOLLIN and EPOLLOUT, and O_NONBLOCK.
abbrev pub epoll_in : ℕ
epoll_in = 1

abbrev pub epoll_out : ℕ
epoll_out = 4

abbrev pub o_nonblock : ℕ
o_nonblock = 2048

-- `epoll_ctl` with its three operations on a descriptor; only ADD has a result that is looked at:
-- whether it failed.
pub record EpollCtl (K : Type 0) : Type 0 where
  pub ctl_add : (fd events : ℕ) → Option ℕ → K → Bool × K
  pub ctl_mod : (fd events : ℕ) → Option ℕ → K → K
  pub ctl_del : (fd : ℕ) → K → K

-- `m_fd == -1`, for what `epoll_create` returned.
unfoldable pub is_invalid : Option ℕ → Bool
is_invalid none = true
is_invalid (some fd) = false

-- The events of `add` and `write`.
unfoldable pub asked_events : Bool → ℕ
asked_events enable = if enable then bit_or epoll_in epoll_out else epoll_in

-- A call of `add`, `del` or `write` from outside.
pub data PollCall : Type 0 where
  add : (sock : ℕ) (ud : Option ℕ) → PollCall
  del : (sock : ℕ) → PollCall
  write : (sock : ℕ) (ud : Option ℕ) (enable : Bool) → PollCall

-- The result of `add`: 1 where it failed. `del` and `write` return nothing.
unfoldable pub poll_call : {K : Type 0} → EpollCtl K → PollCall → K → ℕ × K
poll_call ctl (add sock ud) k =
    let (fails, k') = ctl.ctl_add sock (asked_events false) ud k in (if fails then 1 else 0, k')
poll_call ctl (del sock) k = (0, ctl.ctl_del sock k)
poll_call ctl (write sock ud enable) k = (0, ctl.ctl_mod sock (asked_events enable) ud k)

-- Calls one after the other, with their results.
unfoldable pub poll_calls : {K : Type 0} → EpollCtl K → List PollCall → K → List ℕ × K
poll_calls ctl [] k = ([], k)
poll_calls ctl (c ∷ calls) k =
    let (result, k') = poll_call ctl c k in
    let (results, k'') = poll_calls ctl calls k' in (result ∷ results, k'')

-- What `epoll_wait` reports of one descriptor.
pub record Ready : Type 0 where
  pub flag : ℕ
  pub ptr : Option ℕ

-- `(flag & bit) != 0`
abbrev pub has_bit : ℕ → ℕ → Bool
has_bit flag bit = not (bit_and flag bit == 0)

unfoldable pub of_ready : Ready → Event
of_ready r = record {
  slot = r.ptr;
  read = has_bit r.flag epoll_in;
  write = has_bit r.flag epoll_out;
}

-- `wait`: `epoll_wait` fails, or reports at most so many; the result is its own, `none` for -1, and
-- the events are filled in.
unfoldable pub wait : Option (List Ready) → ℕ → Option ℕ × List Event
wait none max = (none, [])
wait (some ready) max = (some (length (take max ready)), map of_ready (take max ready))

-- `nonblocking`: the flags that F_SETFL is called with, if F_GETFL gives any.
unfoldable pub nonblocking : Option ℕ → Option ℕ
nonblocking none = none
nonblocking (some flag) = some (bit_or flag o_nonblock)
