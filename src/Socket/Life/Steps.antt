-- ===== src/Socket/Life/Steps.antt =====
-- The whole server: each step moves every socket along its life, and each reserved slot waits for
-- its own request.
use canna.Prelude.{
  ℕ, ◌+◌, ◌<◌, ◌≤◌, ◌≡◌, ◌∙◌, refl, inl, inr, true, false, List, [], ◌∷◌, ◌++◌, Option, none, some,
  arith, Option-cases, ◌==◌, sym, ap, if◌then◌else◌, Bool-cases, subst,
}
use canna.Socket.Types.{
  hash_id, max_socket, Socket, Server, Sys, Report, Event, Request, start, bind, listening, close,
  connect, exit, send, call, close_fd,
}
use canna.Socket.Slots.{reserve_id}
use canna.Socket.Send.{After, After-bind}
use canna.Socket.Commands.{ctrl_cmd}
use canna.Socket.Poll.{Round, again, returns, idle, finish, events, control, round}
use canna.Socket.Api.{
  initialize, send_request, reserve_and_send, server_listen, server_bind, server_connect,
  server_start, server_close, server_send, server_exit,
}
use canna.Socket.Reserve.{reserve_id_found, reserve_id_kept}
use canna.Socket.Same.{SameAt}
use canna.Socket.Local.{ctrl_cmd-Same}
use canna.Socket.Handled.{slot_of-ne}
use canna.Socket.Invariant.{IsValid, Inside}
use canna.Socket.Reach.{
  Step, polls, listens, binds, connects, starts, closes, sends, exits, Reach, fresh, next, left_by,
  Reach-IsValid, connected_by,
}
use canna.Socket.Life.{lives, LivesAt, is_reserved, opens_at, opening, Waits}
use canna.Socket.Life.Requests.{lives_self, ctrl_cmd-lives}
use canna.Socket.Life.Waiting.{Leaves, ctrl_cmd-Leaves}
use canna.Socket.Life.Events.{MovesAt, RoundTo, finish-RoundTo, events-MovesAt}

-- Between two servers the slot `j` has moved along its life, and behind them it is reserved just
-- when the pipe holds its request.
abbrev pub Lives : ℕ → Server → Server → Type 0
Lives j s t = (lives (s.slots j) (t.slots j) ≡ true) × (opening j t.pipe ≡ is_reserved (t.slots j))

MovesAt-Lives :
    (j : ℕ) (s t : Server)
    → opening j s.pipe ≡ is_reserved (s.slots j)
    → MovesAt j s t
    → Lives j s t
MovesAt-Lives j s t w (a, b, c) = (a, ap (opening j) c ∙ w ∙ sym b)

-- Behind a request that was taken from the pipe.
handled-Lives :
    (s : Server) (r : Request) (rest : List Request) (j : ℕ) (m : Option (Server × Option Report))
    → opens_at j r + opening j rest ≡ is_reserved (s.slots j)
    → After (λ q. q.0.pipe ≡ rest) m
    → LivesAt j s m
    → Leaves j (opens_at j r) s m
    → After (λ q. Lives j s q.0) m
handled-Lives s r rest j none w a b c = tt
handled-Lives s r rest j (some q) w a b c = (b, ap (opening j) a ∙ omega (arith, w, c))

RoundTo-map :
    (j : ℕ) (s : Server) (m : Option Round)
    → opening j s.pipe ≡ is_reserved (s.slots j)
    → After (RoundTo (MovesAt j s)) m
    → After (RoundTo (Lives j s)) m
RoundTo-map j s none w h = tt
RoundTo-map j s (some (again t)) w h = MovesAt-Lives j s t w h
RoundTo-map j s (some (returns t r)) w h = MovesAt-Lives j s t w h
RoundTo-map j s (some (idle t)) w h = MovesAt-Lives j s t w h

control-Lives :
    (sys : Sys) (waited : List Event) (pipe : List Request) (s : Server) (j : ℕ)
    → s.pipe ≡ pipe
    → Inside waited
    → IsValid s
    → Waits s
    → j < max_socket
    → After (RoundTo (Lives j s)) (control sys waited pipe s)
unfolding control
control-Lives sys waited [] s j e new v w p =
    RoundTo-map j s (events sys waited s.pending (record s { checkctrl = false })) (w j p) (
      events-MovesAt sys waited s.pending (record s { checkctrl = false }) j new v.events
        (record { tidy = v.tidy; ids = v.ids; events = v.events }))
control-Lives sys waited (r ∷ rest) s j e new v w p =
    let t : Server = record s { pipe = rest } in
    let waits = λ (k : ℕ) (q : k < max_socket). ap (opening k) (sym e) ∙ w k q in
    let opens : (k : ℕ) → k < max_socket → opens_at k r ≤ is_reserved (s.slots k) =
      λ k q. omega (arith, waits k q) in
    After-bind (λ (q : Server × Option Report). Lives j s q.0) (RoundTo (Lives j s))
      (ctrl_cmd sys t r) (λ h. some (finish h))
      (handled-Lives t r rest j (ctrl_cmd sys t r) (waits j p)
        (kept (ctrl_cmd sys t r) (ctrl_cmd-Same sys t r max_socket (slot_of-ne r)))
        (ctrl_cmd-lives sys t r j v.tidy opens) (ctrl_cmd-Leaves sys t r j v.tidy opens))
      (λ q h. finish-RoundTo (Lives j s) q (λ u a b. (rw a h.0, rw (a, b) h.1)))
  where
    kept :
        (m : Option (Server × Option Report))
        → SameAt max_socket (record s { pipe = rest }) m
        → After (λ q. q.0.pipe ≡ rest) m
    kept none h = tt
    kept (some q) h = h.pipe

round-Lives :
    (sys : Sys) (waited : List Event) (s : Server) (j : ℕ)
    → Inside waited
    → IsValid s
    → Waits s
    → j < max_socket
    → After (RoundTo (Lives j s)) (round sys waited s)
unfolding round
round-Lives sys waited s j new v w p = elim (Bool-cases s.checkctrl) [
  | inl first ↦
      subst
        (λ c.
          After (RoundTo (Lives j s))
            (if c then control sys waited s.pipe s else events sys waited s.pending s))
        (sym first) (control-Lives sys waited s.pipe s j refl new v w p)
  | inr later ↦
      subst
        (λ c.
          After (RoundTo (Lives j s))
            (if c then control sys waited s.pipe s else events sys waited s.pending s))
        (sym later)
        (RoundTo-map j s (events sys waited s.pending s) (w j p)
          (events-MovesAt sys waited s.pending s j new v.events v))
]

opening-append : (j : ℕ) (p q : List Request) → opening j (p ++ q) ≡ opening j p + opening j q
opening-append j [] q = omega arith
opening-append j (r ∷ p) q = omega (arith, opening-append j p q)

-- A client that reserves a slot and sends its request.
reserve_and_send-Lives :
    (request : ℕ → Request) (give_up : Server → Server) (s : Server) (j : ℕ)
    → ((t : Server) → ((give_up t).slots ≡ t.slots) × ((give_up t).pipe ≡ t.pipe))
    → ((id : ℕ) → opens_at j (request id) ≡ (if hash_id id == j then 1 else 0))
    → IsValid s
    → opening j s.pipe ≡ is_reserved (s.slots j)
    → Lives j s (reserve_and_send request give_up s).0
reserve_and_send-Lives request give_up s j kept opens v w = elim (Option-cases (reserve_id s).1) [
  | inl e ↦
      let (same, small) = reserve_id_kept s v.ids e in
      let t : Server = record s { alloc_id = (reserve_id s).0.alloc_id } in
      let (a, b) = kept t in rw (e, same) (rw a (lives_self (s.slots j)), rw (a, b) w)
  | inr (id, e) ↦
      let (free, small, made) = reserve_id_found s id e in
      rw (e, made)
        (
          ground (arith, lives_self (s.slots j), free),
          ground (arith, w, free, opens id, opening-append j s.pipe (request id ∷ [])),
        )
]

-- A client whose request opens no slot.
send_request-Lives :
    (r : Request) (s : Server) (j : ℕ)
    → opens_at j r ≡ 0
    → opening j s.pipe ≡ is_reserved (s.slots j)
    → Lives j s (send_request r s)
send_request-Lives r s j e w =
    (lives_self (s.slots j), omega (arith, w, e, opening-append j s.pipe (r ∷ [])))

left_by-RoundTo : (P : Server → Type 0) (r : Round) → RoundTo P r → P (left_by r)
left_by-RoundTo P (again s) h = h
left_by-RoundTo P (returns s r) h = h
left_by-RoundTo P (idle s) h = h

Step-Lives :
    {s t : Server} → Step s t → IsValid s → Waits s → (j : ℕ) → j < max_socket → Lives j s t
unfolding server_listen server_bind server_connect server_start server_close server_send server_exit
Step-Lives {s} (polls sys waited r new h) v w j p =
    left_by-RoundTo (Lives j s) r
      (subst (After (RoundTo (Lives j s))) h (round-Lives sys waited s j new v w p))
Step-Lives {s} (listens none opaque) v w j p = (lives_self (s.slots j), w j p)
Step-Lives {s} (listens (some fd) opaque) v w j p =
    reserve_and_send-Lives (λ id. listening id fd opaque) (call (close_fd fd)) s j
      (λ t. (refl, refl)) (λ id. refl) v (w j p)
Step-Lives {s} (binds opaque fd) v w j p =
    reserve_and_send-Lives (λ id. bind id fd opaque) (λ t. t) s j (λ t. (refl, refl)) (λ id. refl) v
      (w j p)
Step-Lives {s} (connects opaque addr port made) v w j p =
    connected_by (Lives j s) opaque addr port s made (lives_self (s.slots j), w j p)
      (reserve_and_send-Lives (λ id. connect id port opaque addr) (λ t. t) s j (λ t. (refl, refl))
        (λ id. refl) v (w j p))
Step-Lives {s} (starts opaque id) v w j p = send_request-Lives (start id opaque) s j refl (w j p)
Step-Lives {s} (closes opaque id) v w j p = send_request-Lives (close id opaque) s j refl (w j p)
Step-Lives {s} (sends id buffer) v w j p =
    ground
      (arith, lives_self (s.slots j), w j p, send_request-Lives (send id buffer) s j refl (w j p))
Step-Lives {s} exits v w j p = send_request-Lives exit s j refl (w j p)

initialize-Waits : (memory : ℕ → Socket) → Waits (initialize memory)
unfolding initialize
initialize-Waits memory k p = ground arith

-- In every state that a server reaches, the control pipe holds just one request to open the socket
-- of each reserved slot, and none for the socket of any other slot.
pub Reach-Waits : {memory : ℕ → Socket} {s : Server} → Reach memory s → Waits s
Reach-Waits {memory} fresh k p = initialize-Waits memory k p
Reach-Waits (next r st) k p = (Step-Lives st (Reach-IsValid r) (Reach-Waits r) k p).1

-- From every state that a server reaches, where no client connects to an address of 232 bytes, each
-- call of a client and each round of `poll` that does not abort moves the socket in any slot along its life: a free slot is reserved or takes a client
-- that came in, a reserved one is opened or given up, a pending listener or client starts, a
-- connecting one connects, an open one is closed, or the state stays; and the id and the descriptor
-- of an open socket do not change until its slot is freed.
pub Step-lives :
    {memory : ℕ → Socket} {s t : Server}
    → Reach memory s
    → Step s t
    → (j : ℕ) → j < max_socket
    → lives (s.slots j) (t.slots j) ≡ true
Step-lives r st j p = (Step-Lives st (Reach-IsValid r) (Reach-Waits r) j p).0
