-- ===== src/Socket/Reach.antt =====
-- The states that a server can reach from `initialize` by rounds of `poll` and by the calls of
-- clients, one after the other in any order. No client connects to an address of 232 bytes: its
-- request has 256, its length byte is 0, and `poll` would take its body for further requests.
use canna.Prelude.{
  ℕ, ◌≡◌, ◌+◌, List, Option, none, some, arith, subst, ◌<◌, ap, inl, inr, Bool-cases, some_inj, ltb,
  ◌==◌, length,
}
use canna.Socket.Types.{
  max_socket, Socket, Server, Sys, Event, Request, close_fd, call, start, bind, listening, close,
  connect, exit, send,
}
use canna.Socket.Slots.{reserve_id}
use canna.Socket.Send.{After}
use canna.Socket.Poll.{Round, again, returns, idle, round}
use canna.Socket.Api.{
  initialize, cleared, open_size, send_request, send_reserved, reserve_and_send, server_listen,
  server_bind, server_connect, server_start, server_close, server_send, server_exit,
}
use canna.Socket.Tidy.{IsTidy}
use canna.Socket.Invariant.{IsValid, Inside, reserve_id-IsValid}
use canna.Socket.Handled.{ValidRound}
use canna.Socket.Rounds.{round-Valid}

-- The server that a round leaves.
abbrev pub left_by : Round → Server
left_by (again s) = s
left_by (returns s r) = s
left_by (idle s) = s

-- epoll reports only pointers that `event_fd.add` was given, all of them into the slots.
pub data Step (s : Server) : Server → Type 0 where
  polls :
      (sys : Sys) (waited : List Event) (r : Round)
      → Inside waited
      → round sys waited s ≡ some r
      → Step s (left_by r)
  listens : (fd : Option ℕ) (opaque : ℕ) → Step s (server_listen fd opaque s).0
  binds : (opaque fd : ℕ) → Step s (server_bind opaque fd s).0
  connects :
      (opaque : ℕ) (addr : List ℕ) (port : ℕ) {t : Server} {id : Option ℕ}
      → server_connect opaque addr port s ≡ some (t, id)
      → Step s t
  starts : (opaque id : ℕ) → Step s (server_start opaque id s)
  closes : (opaque id : ℕ) → Step s (server_close opaque id s)
  sends : (id : ℕ) (buffer : List ℕ) → Step s (server_send id buffer s).0
  exits : Step s (server_exit s)

pub data Reach (memory : ℕ → Socket) : Server → Type 0 where
  fresh : Reach memory (initialize memory)
  next : {s t : Server} → Reach memory s → Step s t → Reach memory t

cleared-IsTidy : (memory : ℕ → Socket) (k : ℕ) → k < max_socket → IsTidy k (cleared memory k)
cleared-IsTidy memory k p = ground arith

initialize-IsValid : (memory : ℕ → Socket) → IsValid (initialize memory)
unfolding initialize
initialize-IsValid memory = record { tidy = cleared-IsTidy memory; ids = omega arith; events = tt }

send_request-IsValid : (r : Request) (s : Server) → IsValid s → IsValid (send_request r s)
send_request-IsValid r s v = record { tidy = v.tidy; ids = v.ids; events = v.events }

call-IsValid : (fd : ℕ) (s : Server) → IsValid s → IsValid (call (close_fd fd) s)
call-IsValid fd s v = record { tidy = v.tidy; ids = v.ids; events = v.events }

reserve_and_send-IsValid :
    (request : ℕ → Request) (give_up : Server → Server) (s : Server)
    → ((t : Server) → IsValid t → IsValid (give_up t))
    → IsValid s
    → IsValid (reserve_and_send request give_up s).0
reserve_and_send-IsValid request give_up s keep v =
    reserved_sent (reserve_id s).0 (reserve_id s).1 (reserve_id-IsValid s v)
  where
    reserved_sent :
        (t : Server) (id : Option ℕ) → IsValid t → IsValid (send_reserved request give_up t id).0
    reserved_sent t none w = keep t w
    reserved_sent t (some id) w = send_request-IsValid (request id) t w

left_by-IsValid : (r : Round) → ValidRound r → IsValid (left_by r)
left_by-IsValid (again s) v = v
left_by-IsValid (returns s r) v = v
left_by-IsValid (idle s) v = v

-- What holds of the server before `server_connect`, and where it reserves a slot, holds behind it.
pub connected_by {ℓ} :
    (P : Server → Type ℓ) (opaque : ℕ) (addr : List ℕ) (port : ℕ) (s : Server) {t : Server}
    {id : Option ℕ}
    → server_connect opaque addr port s ≡ some (t, id)
    → P s
    → P (reserve_and_send (λ id. connect id port opaque addr) (λ t. t) s).0
    → P t
unfolding server_connect
connected_by P opaque addr port s made old new =
    elim (Bool-cases (ltb 256 (length addr + open_size))) [
      | inl long ↦ subst P (ap (λ q. q.0) (some_inj (rw long at made))) old
      | inr short ↦ elim (Bool-cases (length addr + open_size == 256)) [
        | inl torn ↦ absurd (let e = rw (short, torn) at made in cc)
        | inr fits ↦ subst P (ap (λ q. q.0) (some_inj (rw (short, fits) at made))) new
      ]
    ]

Step-IsValid : {s t : Server} → Step s t → IsValid s → IsValid t
unfolding server_listen server_bind server_connect server_start server_close server_send server_exit
Step-IsValid {s} (polls sys waited r new h) v =
    left_by-IsValid r (subst (After ValidRound) h (round-Valid sys waited s new v))
Step-IsValid (listens none opaque) v = v
Step-IsValid {s} (listens (some fd) opaque) v =
    reserve_and_send-IsValid (λ id. listening id fd opaque) (call (close_fd fd)) s
      (λ t. call-IsValid fd t) v
Step-IsValid {s} (binds opaque fd) v =
    reserve_and_send-IsValid (λ id. bind id fd opaque) (λ t. t) s (λ t w. w) v
Step-IsValid {s} (connects opaque addr port made) v =
    connected_by IsValid opaque addr port s made v
      (reserve_and_send-IsValid (λ id. connect id port opaque addr) (λ t. t) s (λ t w. w) v)
Step-IsValid {s} (starts opaque id) v = send_request-IsValid (start id opaque) s v
Step-IsValid {s} (closes opaque id) v = send_request-IsValid (close id opaque) s v
Step-IsValid {s} (sends id buffer) v = ground (arith, send_request-IsValid (send id buffer) s v)
Step-IsValid {s} exits v = send_request-IsValid exit s v

-- In every state that a server reaches, whatever the system answers and the clients ask for, but a
-- connection to an address of 232 bytes, whose request the pipe tears: both
-- write lists of each socket are empty, no socket is half closed, each slot in use holds an id that
-- leads to it, the id counter is below 2 ^ 31, and pending events point into the slots.
pub Reach-IsValid : {memory : ℕ → Socket} {s : Server} → Reach memory s → IsValid s
Reach-IsValid {memory} fresh = initialize-IsValid memory
Reach-IsValid (next r st) = Step-IsValid st (Reach-IsValid r)
