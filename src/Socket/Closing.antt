-- ===== src/Socket/Closing.antt =====
-- Closing a socket: the round of poll that handles a close request, on all of its branches.
use canna.Prelude.{
  ℕ, ◌≡◌, ◌≢◌, refl, inl, inr, true, false, List, [], ◌∷◌, Option, none, some, arith, map,
  if◌then◌else◌, ◌||◌, Bool-cases, ap, ◌∙◌,
}
use canna.Socket.Types.{
  SocketType, invalid, reserve, paccept, plisten, bound, hash_id, is, Socket, Server, Sys, Request,
  close, closed, Event, SysCall, epoll_del, close_fd, put, tell, null,
}
use canna.Socket.Slots.{force_close}
use canna.Socket.Send.{◌>>=◌}
use canna.Socket.Commands.{close_socket, close_flushed, is_stale, ctrl_cmd}
use canna.Socket.Events.{clear_closed_event, clear_event}
use canna.Socket.Poll.{Round, returns, finish, control, events, round}
use canna.Socket.Tidy.{IsTidy}
use canna.Socket.Reach.{Reach, Reach-IsValid}

-- The system calls that close a socket of a type, on top of those made before.
abbrev pub closing_calls : SocketType → ℕ → List SysCall → List SysCall
closing_calls t fd calls =
    let deregistered = if is t paccept || is t plisten then calls else epoll_del fd ∷ calls in
    if is t bound then deregistered else close_fd fd ∷ deregistered

-- The server behind a close: the slot is free, and the message names the request.
abbrev pub closed_server : Server → ℕ → ℕ → Server
closed_server s id opaque =
    record (put s (hash_id id)
      (record (s.slots (hash_id id)) { type = invalid; high = []; low = [] })) {
        result = record { id = id; opaque = opaque; ud = 0; content = null };
        calls = closing_calls (s.slots (hash_id id)).type (s.slots (hash_id id)).fd s.calls;
      }

-- A close request for a live socket that is past its reservation reports
-- SOCKET_CLOSE under the request's id and owner, frees the slot, and makes just the calls that
-- take the descriptor from epoll, unless it was never there, and close it, unless the client
-- bound it.
pub close_socket_completes :
    (sys : Sys) (s : Server) (id opaque : ℕ)
    → IsTidy (hash_id id) (s.slots (hash_id id))
    → is_stale s id ≡ false
    → is (s.slots (hash_id id)).type reserve ≡ false
    → close_socket sys s id opaque ≡ some (closed_server s id opaque, some closed)
unfolding close_socket close_flushed force_close
close_socket_completes sys s id opaque v live ready = ground arith

-- A close request for a slot that is only reserved fails the assertion of force_close.
pub close_socket_reserved :
    (sys : Sys) (s : Server) (id opaque : ℕ)
    → IsTidy (hash_id id) (s.slots (hash_id id))
    → (s.slots (hash_id id)).id ≡ id
    → (s.slots (hash_id id)).type ≡ reserve
    → close_socket sys s id opaque ≡ none
unfolding close_socket close_flushed force_close
close_socket_reserved sys s id opaque v same kind = ground arith

-- The pending events before and after a close, one by one: none points to the slot `k` any more,
-- an event keeps its flags, and one that points to a slot in use is as it was.
abbrev pub Unpointed : Server → ℕ → List Event → List Event → Type 0
Unpointed t k [] [] = Unit
Unpointed t k (e ∷ es) (d ∷ ds) =
    (d.slot ≢ some k)
    × (d.read ≡ e.read)
    × (d.write ≡ e.write)
    × ((j : ℕ) → e.slot ≡ some j → is (t.slots j).type invalid ≡ false → d ≡ e)
    × Unpointed t k es ds
Unpointed t k es ds = ⊥

clear_event-away :
    (t : Server) (id k : ℕ) (e : Event)
    → (t.slots k).type ≡ invalid
    → (t.slots k).id ≡ id
    → (clear_event t id e).slot ≢ some k
clear_event-away t id k e free same = λ h. ground arith

clear_event-flags :
    (t : Server) (id : ℕ) (e : Event)
    → ((clear_event t id e).read ≡ e.read) × ((clear_event t id e).write ≡ e.write)
clear_event-flags t id e = ground arith

clear_event-in_use :
    (t : Server) (id j : ℕ) (e : Event)
    → e.slot ≡ some j
    → is (t.slots j).type invalid ≡ false
    → clear_event t id e ≡ e
clear_event-in_use t id j e points used = rw (points, used) refl

map-Unpointed :
    (t : Server) (id k : ℕ)
    → (t.slots k).type ≡ invalid
    → (t.slots k).id ≡ id
    → (es : List Event) → Unpointed t k es (map (clear_event t id) es)
map-Unpointed t id k free same [] = tt
map-Unpointed t id k free same (e ∷ es) =
    let (r, w) = clear_event-flags t id e in
    (
      clear_event-away t id k e free same,
      r,
      w,
      (λ j. clear_event-in_use t id j e),
      map-Unpointed t id k free same es,
    )

-- What a report of `close_socket` names.
abbrev pub Names : Server → ℕ → ℕ → List Request → Type 0
Names t id opaque rest = (t.result.id ≡ id) × (t.result.opaque ≡ opaque) × (t.pipe ≡ rest)

-- The round that reads a close request off the pipe: the id is stale, or only reserved, or live.
pub data CloseRound (s : Server) (id opaque : ℕ) (rest : List Request) : Option Round → Type 0 where
  already :
      (t : Server)
      → is_stale s id ≡ true
      → Names t id opaque rest
      → t.slots ≡ s.slots
      → t.calls ≡ s.calls
      → CloseRound s id opaque rest (some (returns t closed))
  unready :
      is_stale s id ≡ false
      → is (s.slots (hash_id id)).type reserve ≡ true
      → CloseRound s id opaque rest none
  closes :
      (t : Server)
      → is_stale s id ≡ false
      → is (s.slots (hash_id id)).type reserve ≡ false
      → Names t id opaque rest
      → is_stale t id ≡ true
      → ((j : ℕ) → j ≢ hash_id id → t.slots j ≡ s.slots j)
      → t.calls ≡ closing_calls (s.slots (hash_id id)).type (s.slots (hash_id id)).fd s.calls
      → Unpointed t (hash_id id) s.pending t.pending
      → CloseRound s id opaque rest (some (returns t closed))

round-control :
    (sys : Sys) (waited : List Event) (s : Server) (id opaque : ℕ) (rest : List Request)
    → s.checkctrl ≡ true
    → s.pipe ≡ close id opaque ∷ rest
    → (round sys waited s
        ≡ (close_socket sys (record s { pipe = rest }) id opaque >>= λ h. some (finish h)))
unfolding round control ctrl_cmd
round-control sys waited s id opaque rest checks next =
    ap (λ b. if b then control sys waited s.pipe s else events sys waited s.pending s) checks
    ∙ ap (λ p. control sys waited p s) next

stale_lem :
    (sys : Sys) (s : Server) (id opaque : ℕ)
    → is_stale s id ≡ true
    → close_socket sys s id opaque ≡ some (tell s id opaque 0 null, some closed)
unfolding close_socket
stale_lem sys s id opaque h = rw h refl

live_id : (s : Server) (id : ℕ) → is_stale s id ≡ false → (s.slots (hash_id id)).id ≡ id
live_id s id h = ground arith

-- In any state that a server reaches, where no client has connected to an address of 232 bytes, the
-- round that reads a close request off the pipe does one of three things. For a stale id it returns SOCKET_CLOSE and leaves the slots alone and calls
-- nothing. For a live id it returns SOCKET_CLOSE under the id and the owner of the request, the id
-- is stale then, the other slots are as they were, the calls are those that take the descriptor
-- from epoll, unless it was never there, and close it, unless the client bound it, no pending event points to the slot, and each that points to a slot in
-- use is kept as it was. For an id that is only reserved it aborts.
pub round-CloseRound :
    {memory : ℕ → Socket} {s : Server} (sys : Sys) (waited : List Event) (id opaque : ℕ)
    (rest : List Request)
    → Reach memory s
    → s.checkctrl ≡ true
    → s.pipe ≡ close id opaque ∷ rest
    → CloseRound s id opaque rest (round sys waited s)
unfolding finish clear_closed_event
round-CloseRound {s = s} sys waited id opaque rest r checks next =
    let k : ℕ = hash_id id in
    let s' : Server = record s { pipe = rest } in
    let tidy = (Reach-IsValid r).tidy k (omega arith) in
    let after = round-control sys waited s id opaque rest checks next in
    rw after (elim (Bool-cases (is_stale s id)) [
      | inl stale ↦
          rw (stale_lem sys s' id opaque stale) (already _ stale (refl, refl, refl) refl refl)
      | inr live ↦ elim (Bool-cases (is (s.slots k).type reserve)) [
        | inl held ↦
            rw (close_socket_reserved sys s' id opaque tidy (live_id s id live) (ground arith))
              (unready live held)
        | inr ready ↦ rw (close_socket_completes sys s' id opaque tidy live ready) (
            closes _ live ready (refl, refl, refl) (ground arith) (λ j ne. ground arith) refl
              (map-Unpointed (closed_server s' id opaque) id k (ground arith)
                (ground (arith, live_id s id live)) s.pending))
      ]
    ])
