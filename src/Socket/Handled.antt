-- ===== src/Socket/Handled.antt =====
-- One event, and the end of a request, keep the invariant of the server.
use canna.Prelude.{
  ℕ, ◌<◌, ◌≡◌, ◌≢◌, inl, inr, Bool, true, false, List, [], ◌∷◌, Option, none, some, arith,
  Bool-cases, map, if◌then◌else◌, some_inj, none-ne-some,
}
use canna.Socket.Types.{
  invalid, connecting, hash_id, max_socket, is, Server, Sys, Event, Report, closed, failed,
  accepted, Request, start, bind, listening, close, connect, exit, send, setopt, ignored,
}
use canna.Socket.Send.{◌>>=◌, After, After-bind, send_buffer}
use canna.Socket.Slots.{force_close}
use canna.Socket.Commands.{ctrl_cmd}
use canna.Socket.Events.{
  report_accept, report_connect, forward_message_tcp, clear_closed_event, clear_event,
}
use canna.Socket.Poll.{
  Round, again, returns, idle, finish, read_event, requeue, direct, at_slot, dispatch,
}
use canna.Socket.Tidy.{ctrl_cmd-IsTidy}
use canna.Socket.Same.{SameAt}
use canna.Socket.Local.{slot_of, ctrl_cmd-Same}
use canna.Socket.Invariant.{
  IsValid, ValidAfter, Still, valid_after, Inside, IsInside, report_accept-IsValid,
  report_connect-IsValid, forward_message_tcp-IsTidy, send_buffer-IsTidy,
}

-- A round that ends in a valid server.
abbrev pub ValidRound : Round → Type 0
ValidRound (again s) = IsValid s
ValidRound (returns s r) = IsValid s
ValidRound (idle s) = IsValid s

hash_id-ne : (id : ℕ) → some (hash_id id) ≢ some max_socket
hash_id-ne id e = absurd (omega (arith, some_inj e))

pub slot_of-ne : (r : Request) → slot_of r ≢ some max_socket
slot_of-ne (start id opaque) = hash_id-ne id
slot_of-ne (bind id fd opaque) = hash_id-ne id
slot_of-ne (listening id fd opaque) = hash_id-ne id
slot_of-ne (close id opaque) = hash_id-ne id
slot_of-ne (connect id port opaque host) = hash_id-ne id
slot_of-ne exit = λ e. none-ne-some e
slot_of-ne (send id buffer) = hash_id-ne id
slot_of-ne (setopt id what value) = hash_id-ne id
slot_of-ne (ignored byte) = λ e. none-ne-some e

pub ctrl_cmd-IsValid :
    (sys : Sys) (s : Server) (r : Request) → IsValid s → ValidAfter (ctrl_cmd sys s r)
ctrl_cmd-IsValid sys s r v =
    valid_after s (ctrl_cmd sys s r) v
      (still (ctrl_cmd sys s r) (ctrl_cmd-Same sys s r max_socket (slot_of-ne r)))
      (λ j p. ctrl_cmd-IsTidy sys s r j v.tidy p)
  where
    still : (m : Option (Server × Option Report)) → SameAt max_socket s m → Still s m
    still none h = tt
    still (some (t, r)) h = (h.pending, h.alloc_id)

clear_event-slot :
    (s : Server) (id : ℕ) (e : Event) (k : ℕ) → (clear_event s id e).slot ≡ some k → e.slot ≡ some k
clear_event-slot s id e k h = ground arith

map-Inside :
    (s : Server) (id : ℕ) (es : List Event) → Inside es → Inside (map (clear_event s id) es)
map-Inside s id [] v = tt
map-Inside s id (e ∷ es) v = (λ k h. v.0 k (clear_event-slot s id e k h), map-Inside s id es v.1)

clear_closed_event-IsValid :
    (s : Server) (r : Report) → IsValid s → IsValid (clear_closed_event s r)
unfolding clear_closed_event
clear_closed_event-IsValid s closed v = record {
  tidy = v.tidy;
  ids = v.ids;
  events = map-Inside s s.result.id s.pending v.events;
}
clear_closed_event-IsValid s failed v = record {
  tidy = v.tidy;
  ids = v.ids;
  events = map-Inside s s.result.id s.pending v.events;
}
clear_closed_event-IsValid s r v = v

pub finish-Valid : (q : Server × Option Report) → IsValid q.0 → ValidRound (finish q)
unfolding finish
finish-Valid (s, none) v = v
finish-Valid (s, some r) v = clear_closed_event-IsValid s r v

direct-Valid : (s : Server) (r : Option Report) → IsValid s → ValidRound (direct s r)
unfolding direct
direct-Valid s none v = v
direct-Valid s (some r) v = v

requeue-IsValid : (e : Event) (s : Server) → IsInside e → IsValid s → IsValid (requeue e s)
requeue-IsValid e s inside v = elim (Bool-cases e.write) [
  | inl w ↦ rw w (record { tidy = v.tidy; ids = v.ids; events = (inside, v.events) })
  | inr w ↦ rw w v
]

read_event-IsValid : (sys : Sys) (s : Server) (k : ℕ) → IsValid s → ValidAfter (read_event sys s k)
unfolding read_event
read_event-IsValid sys s k v = ground (
  arith,
  valid_after s (forward_message_tcp sys s k) v
      (unfold forward_message_tcp force_close in ground arith)
      (λ j p. forward_message_tcp-IsTidy sys s k j (v.tidy j p)),
)

-- The parts of `dispatch`, each with its handler's result.
connect_round :
    (sys : Sys) (s : Server) (k : ℕ)
    → is (s.slots k).type connecting ≡ true
    → IsValid s
    → After ValidRound (report_connect sys s k >>= λ (u, r). some (direct u r))
connect_round sys s k waits v =
    After-bind (λ (q : Server × Option Report). IsValid q.0) ValidRound (report_connect sys s k)
      (λ (u, r). some (direct u r)) (report_connect-IsValid sys s k waits v)
      (λ q h. direct-Valid q.0 q.1 h)

came_round :
    (u : Server) (came : Bool)
    → IsValid u
    → ValidRound (if came then returns u accepted else again u)
came_round u true v = v
came_round u false v = v

accept_round :
    (sys : Sys) (s : Server) (k : ℕ)
    → IsValid s
    → After ValidRound
        (report_accept sys s k >>= λ (u, came). some (if came then returns u accepted else again u))
accept_round sys s k v =
    After-bind (λ (q : Server × Bool). IsValid q.0) ValidRound (report_accept sys s k)
      (λ (u, came). some (if came then returns u accepted else again u))
      (report_accept-IsValid sys s k v) (λ q h. came_round q.0 q.1 h)

read_round :
    (sys : Sys) (s : Server) (e : Event) (k : ℕ)
    → IsInside e
    → IsValid s
    → After ValidRound (read_event sys s k >>= λ (u, r). some (finish (requeue e u, r)))
read_round sys s e k inside v =
    After-bind (λ (q : Server × Option Report). IsValid q.0) ValidRound (read_event sys s k)
      (λ (u, r). some (finish (requeue e u, r))) (read_event-IsValid sys s k v)
      (λ q h. finish-Valid (requeue e q.0, q.1) (requeue-IsValid e q.0 inside h))

write_round :
    (sys : Sys) (s : Server) (k : ℕ)
    → is (s.slots k).type invalid ≡ false
    → k < max_socket
    → IsValid s
    → After ValidRound (send_buffer sys.writes sys.writes_low s k >>= λ r. some (finish r))
unfolding finish
write_round sys s k live p v =
    rw (send_buffer-IsTidy sys.writes sys.writes_low s k live (v.tidy k p))
      (record { tidy = v.tidy; ids = v.ids; events = v.events })

dispatch-Valid :
    (sys : Sys) (s : Server) (e : Event) (k : ℕ)
    → IsInside e
    → k < max_socket
    → IsValid s
    → After ValidRound (dispatch sys s e k)
unfolding dispatch
dispatch-Valid sys s e k inside p v = ground (
  arith,
  connect_round sys s k,
  accept_round sys s k v,
  read_round sys s e k inside v,
  write_round sys s k,
)

pub at_slot-Valid :
    (sys : Sys) (s : Server) (e : Event) (slot : Option ℕ)
    → e.slot ≡ slot
    → IsInside e
    → IsValid s
    → After ValidRound (at_slot sys s e slot)
unfolding at_slot
at_slot-Valid sys s e none h inside v = v
at_slot-Valid sys s e (some k) h inside v = dispatch-Valid sys s e k inside (inside k h) v
