-- ===== src/Socket/Poll.antt =====
-- gateserver/socket_server.cpp: the loop of `poll`, one round at a time.
use canna.Prelude.{ℕ, true, false, List, [], ◌∷◌, Option, none, some, if◌then◌else◌, ◌==◌, take}
use canna.Socket.Types.{
  invalid, listen, connecting, is, protocol_tcp, max_event, Report, accepted, Server, Sys, Event,
  Request,
}
use canna.Socket.Send.{◌>>=◌, send_buffer}
use canna.Socket.Commands.{ctrl_cmd}
use canna.Socket.Events.{report_accept, report_connect, forward_message_tcp, clear_closed_event}

-- What one round of the loop does: go round again, or return a report, or return -1 from `wait`.
pub data Round : Type 0 where
  again : Server → Round
  returns : Server → Report → Round
  idle : Server → Round

-- A report is returned after `clear_closed_event`; -1 goes round again.
unfoldable pub finish : Server × Option Report → Round
finish (s, none) = again s
finish (s, some r) = returns (clear_closed_event s r) r

-- `forward_message_tcp` on a TCP socket; -1 on any other.
unfoldable pub read_event : Sys → Server → ℕ → Option (Server × Option Report)
read_event sys s k =
    if (s.slots k).protocol == protocol_tcp then forward_message_tcp sys s k else some (s, none)

-- An event that also reports writing comes round once more, without its reading.
abbrev pub requeue : Event → Server → Server
requeue e s = if e.write then record s { pending = record e { read = false } ∷ s.pending } else s

-- The report of `report_connect` is returned as it is.
unfoldable pub direct : Server → Option Report → Round
direct u none = again u
direct u (some r) = returns u r

-- One event, on the socket in the slot `k`.
unfoldable pub dispatch : Sys → Server → Event → ℕ → Option Round
dispatch sys s e k =
    let t = (s.slots k).type in
    if is t connecting
    then (report_connect sys s k >>= λ (u, r). some (direct u r))
    else if is t listen
    then (report_accept sys s k >>= λ (u, came).
        some (if came then returns u accepted else again u))
    else if is t invalid
    then some (again s)
    else if e.read
    then (read_event sys s k >>= λ (u, r). some (finish (requeue e u, r)))
    else if e.write
    then (send_buffer sys.writes sys.writes_low s k >>= λ r. some (finish r))
    else some (again s)

-- An event whose pointer is null is skipped.
unfoldable pub at_slot : Sys → Server → Event → Option ℕ → Option Round
at_slot sys s e none = some (again s)
at_slot sys s e (some k) = dispatch sys s e k

-- The next event, of those that are pending.
unfoldable pub next_event : Sys → List Event → Server → Option Round
next_event sys [] s = some (idle s)
next_event sys (e ∷ rest) s = at_slot sys (record s { pending = rest }) e e.slot

-- `event_fd.wait` is asked once the events of the last call are used up.
unfoldable pub events : Sys → List Event → List Event → Server → Option Round
events sys waited [] s =
    next_event sys (take max_event waited)
      (record s { pending = take max_event waited; checkctrl = true })
events sys waited (e ∷ rest) s = next_event sys (e ∷ rest) s

-- The control pipe, which holds these requests, goes before the events.
unfoldable pub control : Sys → List Event → List Request → Server → Option Round
control sys waited [] s = events sys waited s.pending (record s { checkctrl = false })
control sys waited (r ∷ rest) s = ctrl_cmd sys (record s { pipe = rest }) r >>= λ h. some (finish h)

-- One round of `poll`. `waited` is what `event_fd.wait` reports, [] where it fails.
unfoldable pub round : Sys → List Event → Server → Option Round
round sys waited s =
    if s.checkctrl then control sys waited s.pipe s else events sys waited s.pending s

-- How a call of `poll` ends: it returns, or the rounds given run out, or it aborts.
pub data Polled : Type 0 where
  polled : Server → Option Report → Polled
  running : Server → Polled
  aborted : Polled

-- `poll`, over the answers of the system in each of its rounds.
unfoldable pub poll : List (Sys × List Event) → Server → Polled
poll [] s = running s
poll ((sys, waited) ∷ rounds) s = elim (round sys waited s) [
  | none ↦ aborted
  | some (again t) ↦ poll rounds t
  | some (returns t r) ↦ polled t (some r)
  | some (idle t) ↦ polled t none
]
