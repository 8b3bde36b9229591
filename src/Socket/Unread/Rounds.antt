-- ===== src/Socket/Unread/Rounds.antt =====
-- No round of `poll` reports SOCKET_DATA on sockets whose size was never set.
use canna.Prelude.{
  ℕ, ◌<◌, ◌≡◌, ◌≢◌, refl, ap, inl, inr, Bool, true, false, List, [], ◌∷◌, Option, none, some, arith,
  Bool-cases, if◌then◌else◌, take, none-ne-some,
}
use canna.Socket.Types.{
  invalid, max_event, max_socket, hash_id, is, Server, Sys, Event, Report, received, closed, failed,
  accepted, Request,
}
use canna.Socket.Send.{◌>>=◌, After, send_buffer}
use canna.Socket.Commands.{ctrl_cmd}
use canna.Socket.Events.{report_accept, report_connect, forward_message_tcp, clear_closed_event}
use canna.Socket.Poll.{
  Round, again, returns, idle, finish, read_event, requeue, direct, at_slot, control, events,
  dispatch, next_event, round,
}
use canna.Socket.Rounds.{take-Inside}
use canna.Socket.Invariant.{IsValid, Inside, IsInside, send_buffer-IsTidy}
use canna.Socket.Unread.{
  IsUnread, QuietAt, IsHonest, ctrl_cmd-QuietAt, report_connect-QuietAt,
  forward_message_tcp-QuietAt, report_accept-IsUnread,
}

abbrev pub AllUnread : Server → Type 0
AllUnread s = (j : ℕ) → IsUnread j s

abbrev pub QuietRound : Round → Type 0
QuietRound (again s) = AllUnread s
QuietRound (returns s r) = AllUnread s × (r ≢ received)
QuietRound (idle s) = AllUnread s

-- A handler that is quiet at each slot is quiet.
abbrev Quiet : Option (Server × Option Report) → Type 0
Quiet = After (λ q. AllUnread q.0 × (q.1 ≢ some received))

quiet : (m : Option (Server × Option Report)) → ((j : ℕ) → QuietAt j m) → Quiet m
quiet none h = tt
quiet (some q) h = (λ j. (h j).0, (h 0).1)

clear_closed_event-slots : (s : Server) (r : Report) → (clear_closed_event s r).slots ≡ s.slots
unfolding clear_closed_event
clear_closed_event-slots s closed = refl
clear_closed_event-slots s failed = refl
clear_closed_event-slots s r = refl

finish-Quiet :
    (s : Server) (r : Option Report) → AllUnread s → r ≢ some received → QuietRound (finish (s, r))
unfolding finish
finish-Quiet s none v h = v
finish-Quiet s (some r) v h = (λ j. rw (clear_closed_event-slots s r) (v j), λ e. h (ap some e))

direct-Quiet :
    (s : Server) (r : Option Report) → AllUnread s → r ≢ some received → QuietRound (direct s r)
unfolding direct
direct-Quiet s none v h = v
direct-Quiet s (some r) v h = (v, λ e. h (ap some e))

finish_round :
    (m : Option (Server × Option Report)) → Quiet m → After QuietRound (m >>= λ q. some (finish q))
finish_round none h = tt
finish_round (some (s, r)) h = finish-Quiet s r h.0 h.1

direct_round :
    (m : Option (Server × Option Report))
    → Quiet m
    → After QuietRound (m >>= λ (u, r). some (direct u r))
direct_round none h = tt
direct_round (some (s, r)) h = direct-Quiet s r h.0 h.1

requeue-AllUnread : (e : Event) (s : Server) → AllUnread s → AllUnread (requeue e s)
requeue-AllUnread e s v = elim (Bool-cases e.write) [ inl w ↦ rw w v | inr w ↦ rw w v ]

read_round :
    (e : Event) (m : Option (Server × Option Report))
    → Quiet m
    → After QuietRound (m >>= λ (u, r). some (finish (requeue e u, r)))
read_round e none h = tt
read_round e (some (s, r)) h = finish-Quiet (requeue e s) r (requeue-AllUnread e s h.0) h.1

accept_round :
    (m : Option (Server × Bool))
    → ((j : ℕ) → After (λ q. IsUnread j q.0) m)
    → After QuietRound (m >>= λ (u, came). some (if came then returns u accepted else again u))
accept_round none h = tt
accept_round (some (s, true)) h = (h, λ e. cc)
accept_round (some (s, false)) h = h

module _ (sys : Sys) (honest : IsHonest sys) where
  read_event-Quiet : (s : Server) (k : ℕ) → AllUnread s → Quiet (read_event sys s k)
  unfolding read_event
  read_event-Quiet s k v = ground (
    arith,
    quiet (forward_message_tcp sys s k)
        (λ j. forward_message_tcp-QuietAt sys s j (v j) k honest (v k)),
  )

  dispatch-Quiet :
      (s : Server) (e : Event) (k : ℕ)
      → k < max_socket
      → IsValid s
      → AllUnread s
      → After QuietRound (dispatch sys s e k)
  unfolding dispatch
  dispatch-Quiet s e k p valid v = ground (
    arith,
    direct_round (report_connect sys s k)
        (quiet (report_connect sys s k) (λ j. report_connect-QuietAt sys s j (v j) k)),
    accept_round (report_accept sys s k) (λ j. report_accept-IsUnread sys s k j valid.ids (v j)),
    read_round e (read_event sys s k) (read_event-Quiet s k v),
    written,
  )
    where
      written :
          is (s.slots k).type invalid ≡ false
          → After QuietRound (send_buffer sys.writes sys.writes_low s k >>= λ r. some (finish r))
      written live = finish_round (send_buffer sys.writes sys.writes_low s k) (
          rw (send_buffer-IsTidy sys.writes sys.writes_low s k live (valid.tidy k p))
            (v, λ e. none-ne-some e))

  at_slot-Quiet :
      (s : Server) (e : Event) (slot : Option ℕ)
      → e.slot ≡ slot
      → IsInside e
      → IsValid s
      → AllUnread s
      → After QuietRound (at_slot sys s e slot)
  unfolding at_slot
  at_slot-Quiet s e none h inside valid v = v
  at_slot-Quiet s e (some k) h inside valid v = dispatch-Quiet s e k (inside k h) valid v

  next_event-Quiet :
      (es : List Event) (s : Server)
      → Inside es
      → IsValid s
      → AllUnread s
      → After QuietRound (next_event sys es s)
  unfolding next_event
  next_event-Quiet [] s inside valid v = v
  next_event-Quiet (e ∷ rest) s inside valid v =
      at_slot-Quiet (record s { pending = rest }) e e.slot refl inside.0
        (record { tidy = valid.tidy; ids = valid.ids; events = inside.1 }) v

  events-Quiet :
      (waited es : List Event) (s : Server)
      → Inside waited
      → Inside es
      → IsValid s
      → AllUnread s
      → After QuietRound (events sys waited es s)
  unfolding events
  events-Quiet waited [] s new old valid v =
      let inside = take-Inside max_event waited new in
      next_event-Quiet (take max_event waited)
        (record s { pending = take max_event waited; checkctrl = true }) inside
        (record { tidy = valid.tidy; ids = valid.ids; events = inside }) v
  events-Quiet waited (e ∷ rest) s new old valid v = next_event-Quiet (e ∷ rest) s old valid v

  control-Quiet :
      (waited : List Event) (pipe : List Request) (s : Server)
      → Inside waited
      → IsValid s
      → AllUnread s
      → After QuietRound (control sys waited pipe s)
  unfolding control
  control-Quiet waited [] s new valid v =
      events-Quiet waited s.pending (record s { checkctrl = false }) new valid.events
        (record { tidy = valid.tidy; ids = valid.ids; events = valid.events }) v
  control-Quiet waited (r ∷ rest) s new valid v =
      let popped : Server = record s { pipe = rest } in
      finish_round (ctrl_cmd sys popped r) (
        quiet (ctrl_cmd sys popped r) (λ j.
          ctrl_cmd-QuietAt sys popped r j (λ id opaque e. valid.tidy (hash_id id) (omega arith))
            (v j)))

  pub round-Quiet :
      (waited : List Event) (s : Server)
      → Inside waited
      → IsValid s
      → AllUnread s
      → After QuietRound (round sys waited s)
  unfolding round
  round-Quiet waited s new valid v = ground (
    arith,
    control-Quiet waited s.pipe s new valid v,
    events-Quiet waited s.pending s new valid.events valid v,
  )
