-- ===== src/Socket/Life/Events.antt =====
-- What epoll reports moves a socket along its life too, and opens no reserved slot.
use canna.Prelude.{
  ℕ, ◌<◌, ◌≡◌, ◌∙◌, refl, inl, inr, Bool, true, false, List, [], ◌∷◌, Option, none, some, arith,
  Option-cases, if◌then◌else◌, Bool-cases, take,
}
use canna.Socket.Types.{
  invalid, connecting, is, hash_id, max_socket, Socket, Server, Sys, Report, Event, accepted,
  max_event,
}
use canna.Socket.Slots.{reserve_id, new_socket, force_close}
use canna.Socket.Send.{◌>>=◌, After, After-bind, send_buffer}
use canna.Socket.Events.{
  accept_reserved, report_accept, report_connect, forward_message_tcp, clear_closed_event,
}
use canna.Socket.Poll.{
  Round, again, returns, idle, finish, read_event, requeue, direct, at_slot, dispatch, next_event,
  events,
}
use canna.Socket.Reserve.{reserved, reserve_id_found, reserve_id_kept}
use canna.Socket.Tidy.{IsTidy}
use canna.Socket.Invariant.{IsValid, Inside, IsInside, send_buffer-IsTidy}
use canna.Socket.Rounds.{take-Inside}
use canna.Socket.Life.{lives, is_reserved}
use canna.Socket.Life.Requests.{lives_self}

-- A slot has moved along its life, and is reserved if and only if it was.
abbrev pub MovesAt : ℕ → Server → Server → Type 0
MovesAt j s t =
    (lives (s.slots j) (t.slots j) ≡ true)
    × (is_reserved (t.slots j) ≡ is_reserved (s.slots j))
    × (t.pipe ≡ s.pipe)

report_connect-MovesAt :
    (sys : Sys) (s : Server) (k j : ℕ)
    → is (s.slots k).type connecting ≡ true
    → After (λ q. MovesAt j s q.0) (report_connect sys s k)
unfolding report_connect force_close
report_connect-MovesAt sys s k j waits = ground (arith, lives_self (s.slots j))

forward_message_tcp-MovesAt :
    (sys : Sys) (s : Server) (k j : ℕ)
    → IsTidy k (s.slots k)
    → After (λ q. MovesAt j s q.0) (forward_message_tcp sys s k)
unfolding forward_message_tcp force_close
forward_message_tcp-MovesAt sys s k j v = ground (arith, lives_self (s.slots j))

-- A client that comes in takes a free slot, and none other.
accept_reserved-MovesAt :
    (sys : Sys) (sock : Socket) (s : Server) (fd id j : ℕ)
    → is (s.slots (hash_id id)).type invalid ≡ true
    → After (λ q. MovesAt j s q.0) (accept_reserved sys sock fd (reserved s id) (some id))
unfolding accept_reserved new_socket
accept_reserved-MovesAt sys sock s fd id j free = ground (arith, lives_self (s.slots j))

report_accept-MovesAt :
    (sys : Sys) (s : Server) (k j : ℕ)
    → IsValid s
    → After (λ q. MovesAt j s q.0) (report_accept sys s k)
unfolding report_accept accept_reserved
report_accept-MovesAt sys s k j v = elim (Option-cases sys.accepts) [
  | inl e ↦ rw e (lives_self (s.slots j), refl, refl)
  | inr (fd, e) ↦ elim (Option-cases (reserve_id s).1) [
    | inl f ↦
        let (same, small) = reserve_id_kept s v.ids f in
        rw (e, f, same) (lives_self (s.slots j), refl, refl)
    | inr (id, f) ↦
        let (free, small, made) = reserve_id_found s id f in
        rw (e, f, made) (accept_reserved-MovesAt sys (s.slots k) s fd id j free)
  ]
]

-- The server that a round leaves.
abbrev pub RoundTo : (Server → Type 0) → Round → Type 0
RoundTo P (again s) = P s
RoundTo P (returns s r) = P s
RoundTo P (idle s) = P s

-- Behind a report only events are cleared.
pub finish-RoundTo :
    (P : Server → Type 0) (q : Server × Option Report)
    → ((t : Server) → t.slots ≡ q.0.slots → t.pipe ≡ q.0.pipe → P t)
    → RoundTo P (finish q)
unfolding finish clear_closed_event
finish-RoundTo P (s, none) h = h s refl refl
finish-RoundTo P (s, some r) h =
    h (clear_closed_event s r) (clear_closed_event_slots s r) (clear_closed_event_pipe s r)
  where
    clear_closed_event_slots : (s : Server) (r : Report) → (clear_closed_event s r).slots ≡ s.slots
    clear_closed_event_slots s Report.closed = refl
    clear_closed_event_slots s Report.failed = refl
    clear_closed_event_slots s r = refl

    clear_closed_event_pipe : (s : Server) (r : Report) → (clear_closed_event s r).pipe ≡ s.pipe
    clear_closed_event_pipe s Report.closed = refl
    clear_closed_event_pipe s Report.failed = refl
    clear_closed_event_pipe s r = refl

MovesAt-subst :
    (j : ℕ) (s t u : Server) → MovesAt j s t → u.slots ≡ t.slots → u.pipe ≡ t.pipe → MovesAt j s u
MovesAt-subst j s t u (a, b, c) e f = (rw e a, rw e b, f ∙ c)

read_event-MovesAt :
    (sys : Sys) (s : Server) (k j : ℕ)
    → IsTidy k (s.slots k)
    → After (λ q. MovesAt j s q.0) (read_event sys s k)
unfolding read_event
read_event-MovesAt sys s k j v =
    ground (arith, forward_message_tcp-MovesAt sys s k j v, lives_self (s.slots j))

requeue_slots :
    (e : Event) (s : Server) → ((requeue e s).slots ≡ s.slots) × ((requeue e s).pipe ≡ s.pipe)
requeue_slots e s = elim (Bool-cases e.write) [
  | inl w ↦ rw w (refl, refl)
  | inr w ↦ rw w (refl, refl)
]

connect_round :
    (sys : Sys) (s : Server) (k j : ℕ)
    → is (s.slots k).type connecting ≡ true
    → After (RoundTo (MovesAt j s)) (report_connect sys s k >>= λ (u, r). some (direct u r))
unfolding direct
connect_round sys s k j waits =
    After-bind (λ (q : Server × Option Report). MovesAt j s q.0) (RoundTo (MovesAt j s))
      (report_connect sys s k) (λ (u, r). some (direct u r))
      (report_connect-MovesAt sys s k j waits) (λ q h. directed q.0 q.1 h)
  where
    directed : (u : Server) (r : Option Report) → MovesAt j s u → RoundTo (MovesAt j s) (direct u r)
    directed u none h = h
    directed u (some r) h = h

accept_round :
    (sys : Sys) (s : Server) (k j : ℕ)
    → IsValid s
    → After
        (RoundTo (MovesAt j s))
        (report_accept sys s k >>= λ (u, came). some (if came then returns u accepted else again u))
accept_round sys s k j v =
    After-bind (λ (q : Server × Bool). MovesAt j s q.0) (RoundTo (MovesAt j s))
      (report_accept sys s k) (λ (u, came). some (if came then returns u accepted else again u))
      (report_accept-MovesAt sys s k j v) (λ q h. came_round q.0 q.1 h)
  where
    came_round :
        (u : Server) (came : Bool)
        → MovesAt j s u
        → RoundTo (MovesAt j s) (if came then returns u accepted else again u)
    came_round u true h = h
    came_round u false h = h

read_round :
    (sys : Sys) (s : Server) (e : Event) (k j : ℕ)
    → IsTidy k (s.slots k)
    → After
        (RoundTo (MovesAt j s))
        (read_event sys s k >>= λ (u, r). some (finish (requeue e u, r)))
read_round sys s e k j v =
    After-bind (λ (q : Server × Option Report). MovesAt j s q.0) (RoundTo (MovesAt j s))
      (read_event sys s k) (λ (u, r). some (finish (requeue e u, r)))
      (read_event-MovesAt sys s k j v)
      (λ q h.
        finish-RoundTo (MovesAt j s) (requeue e q.0, q.1)
          (λ t a b. let (c, d) = requeue_slots e q.0 in MovesAt-subst j s q.0 t h (a ∙ c) (b ∙ d)))

write_round :
    (sys : Sys) (s : Server) (k j : ℕ)
    → is (s.slots k).type invalid ≡ false
    → IsTidy k (s.slots k)
    → After
        (RoundTo (MovesAt j s))
        (send_buffer sys.writes sys.writes_low s k >>= λ r. some (finish r))
unfolding finish
write_round sys s k j live v =
    rw (send_buffer-IsTidy sys.writes sys.writes_low s k live v)
      (lives_self (s.slots j), refl, refl)

dispatch-MovesAt :
    (sys : Sys) (s : Server) (e : Event) (k j : ℕ)
    → k < max_socket
    → IsValid s
    → After (RoundTo (MovesAt j s)) (dispatch sys s e k)
unfolding dispatch
dispatch-MovesAt sys s e k j p v = ground (
  arith,
  connect_round sys s k j,
  accept_round sys s k j v,
  read_round sys s e k j (v.tidy k p),
  write_round sys s k j,
  v.tidy k p,
  lives_self (s.slots j),
)

at_slot-MovesAt :
    (sys : Sys) (s : Server) (e : Event) (slot : Option ℕ) (j : ℕ)
    → e.slot ≡ slot
    → IsInside e
    → IsValid s
    → After (RoundTo (MovesAt j s)) (at_slot sys s e slot)
unfolding at_slot
at_slot-MovesAt sys s e none j h inside v = (lives_self (s.slots j), refl, refl)
at_slot-MovesAt sys s e (some k) j h inside v = dispatch-MovesAt sys s e k j (inside k h) v

next_event-MovesAt :
    (sys : Sys) (es : List Event) (s : Server) (j : ℕ)
    → Inside es
    → IsValid s
    → After (RoundTo (MovesAt j s)) (next_event sys es s)
unfolding next_event
next_event-MovesAt sys [] s j inside v = (lives_self (s.slots j), refl, refl)
next_event-MovesAt sys (e ∷ rest) s j inside v =
    at_slot-MovesAt sys (record s { pending = rest }) e e.slot j refl inside.0
      (record { tidy = v.tidy; ids = v.ids; events = inside.1 })

-- A round that goes to the events.
pub events-MovesAt :
    (sys : Sys) (waited es : List Event) (s : Server) (j : ℕ)
    → Inside waited
    → Inside es
    → IsValid s
    → After (RoundTo (MovesAt j s)) (events sys waited es s)
unfolding events
events-MovesAt sys waited [] s j new old v =
    next_event-MovesAt sys (take max_event waited)
      (record s { pending = take max_event waited; checkctrl = true }) j
      (take-Inside max_event waited new)
      (record { tidy = v.tidy; ids = v.ids; events = take-Inside max_event waited new })
events-MovesAt sys waited (e ∷ rest) s j new old v = next_event-MovesAt sys (e ∷ rest) s j old v
