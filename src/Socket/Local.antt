-- ===== src/Socket/Local.antt =====
-- A request works on the slot of its id alone: every other slot, the events, the pipe and the id
-- counter stay as they are. A request whose id is stale leaves all the slots alone.
use canna.Prelude.{
  ℕ, ◌≡◌, ◌≢◌, inl, inr, Bool, true, List, [], ◌∷◌, Option, none, some, arith, Option-cases, ap,
  sym,
}
use canna.Socket.Types.{
  hash_id, Server, Sys, Report, Request, start, bind, listening, close, connect, exit, send, setopt,
  ignored, Attempt, Payload, call, close_fd, set_nonblocking, set_keepalive, closed, tell, null,
  closed,
}
use canna.Socket.Slots.{new_socket, force_close}
use canna.Socket.Send.{After, After-bind, send_buffer}
use canna.Socket.Same.{
  Same, SameAt, Same-refl, Same-After, force_close-Same, reporting-Same, send_buffer-Same,
}
use canna.Socket.Commands.{
  close_flushed, after_flush, start_socket, bind_socket, listen_socket, close_socket, open_socket,
  open_resolved, open_connected, try_connect, send_socket, setopt_socket, ctrl_cmd, is_stale,
}

-- The slot that a request works on; `exit` and unknown requests work on none.
abbrev pub slot_of : Request → Option ℕ
slot_of (start id opaque) = some (hash_id id)
slot_of (bind id fd opaque) = some (hash_id id)
slot_of (listening id fd opaque) = some (hash_id id)
slot_of (close id opaque) = some (hash_id id)
slot_of (connect id port opaque host) = some (hash_id id)
slot_of exit = none
slot_of (send id buffer) = some (hash_id id)
slot_of (setopt id what value) = some (hash_id id)
slot_of (ignored byte) = none

start_socket-Same :
    (sys : Sys) (s : Server) (id opaque j : ℕ)
    → j ≢ hash_id id
    → SameAt j s (start_socket sys s id opaque)
unfolding start_socket
start_socket-Same sys s id opaque j ne = ground arith

bind_socket-Same :
    (sys : Sys) (s : Server) (id fd opaque j : ℕ)
    → j ≢ hash_id id
    → SameAt j s (bind_socket sys s id fd opaque)
unfolding bind_socket new_socket
bind_socket-Same sys s id fd opaque j ne = ground arith

listen_socket-Same :
    (s : Server) (id fd opaque j : ℕ) → j ≢ hash_id id → SameAt j s (listen_socket s id fd opaque)
unfolding listen_socket new_socket
listen_socket-Same s id fd opaque j ne = ground arith

close_flushed-Same :
    (s : Server) (id opaque j : ℕ) → j ≢ hash_id id → SameAt j s (close_flushed s id opaque)
unfolding close_flushed
close_flushed-Same s id opaque j ne = ground (
  arith,
  After-bind (Same j s) (λ (q : Server × Option Report). Same j s q.0) (force_close s (hash_id id))
      (λ t.
        some (record t { result = record (t.result) { id = id; opaque = opaque } }, some closed))
      (force_close-Same s (hash_id id) j ne) (λ t h. ground arith),
)

after_flush-Same :
    (s : Server) (r : Option Report) (id opaque j : ℕ)
    → j ≢ hash_id id
    → SameAt j s (after_flush s r id opaque)
unfolding after_flush
after_flush-Same s none id opaque j ne = Same-refl j s
after_flush-Same s (some r) id opaque j ne = close_flushed-Same s id opaque j ne

close_socket-Same :
    (sys : Sys) (s : Server) (id opaque j : ℕ)
    → j ≢ hash_id id
    → SameAt j s (close_socket sys s id opaque)
unfolding close_socket
close_socket-Same sys s id opaque j ne = ground (
  arith,
  close_flushed-Same s id opaque j ne,
  After-bind (λ (q : Server × Option Report). Same j s q.0)
      (λ (q : Server × Option Report). Same j s q.0)
      (send_buffer sys.writes sys.writes_low s (hash_id id)) (λ (t, r). after_flush t r id opaque)
      (send_buffer-Same sys.writes sys.writes_low s (hash_id id) j ne)
      (λ q h.
        Same-After j s q.0 (after_flush q.0 q.1 id opaque) h
          (after_flush-Same q.0 q.1 id opaque j ne)),
)

try_connect-Same :
    (attempts : List Attempt) (j : ℕ) (s : Server)
    → After (λ r. Same j s r.0) (try_connect attempts s)
unfolding try_connect
try_connect-Same [] j s = tt
try_connect-Same (a ∷ rest) j s = elim (Option-cases a.sock) [
  | inl e ↦ rw (e, try_connect) (try_connect-Same rest j s)
  | inr (d, e) ↦ rw e (
      ground (
        arith,
        Same-refl j s,
        try_connect-Same rest j
            (call (close_fd d) (call (set_nonblocking d) (call (set_keepalive d) s))),
      ))
]

send_socket-Same :
    (sys : Sys) (s : Server) (id : ℕ) (buffer : List ℕ) (j : ℕ)
    → j ≢ hash_id id
    → SameAt j s (send_socket sys s id buffer)
unfolding send_socket
send_socket-Same sys s id buffer j ne =
    ground (arith, reporting-Same s (hash_id id) (some closed) j, Same-refl j s)

setopt_socket-Same : (s : Server) (id what value j : ℕ) → Same j s (setopt_socket s id what value)
unfolding setopt_socket
setopt_socket-Same s id what value j = ground arith

open_connected-Same :
    (sys : Sys) (s : Server) (id opaque fd : ℕ) (done : Bool) (printed : Payload) (j : ℕ)
    → j ≢ hash_id id
    → SameAt j s (open_connected sys s id opaque fd done printed)
unfolding open_connected new_socket
open_connected-Same sys s id opaque fd done printed j ne = ground arith

open_resolved-Same :
    (found : Option (List Attempt)) (sys : Sys) (s : Server) (id opaque j : ℕ)
    → j ≢ hash_id id
    → SameAt j s (open_resolved found sys s id opaque)
unfolding open_resolved
open_resolved-Same none sys s id opaque j ne = ground arith
open_resolved-Same (some []) sys s id opaque j ne = ground arith
open_resolved-Same (some (a ∷ rest)) sys s id opaque j ne =
    After-bind (λ (q : Server × ℕ × Bool × Payload). Same j s q.0)
      (λ (q : Server × Option Report). Same j s q.0) (try_connect (a ∷ rest) s)
      (λ (u, fd, done, printed). open_connected sys u id opaque fd done printed)
      (try_connect-Same (a ∷ rest) j s)
      (λ q h.
        Same-After j s q.0 (open_connected sys q.0 id opaque q.1 q.2 q.3) h
          (open_connected-Same sys q.0 id opaque q.1 q.2 q.3 j ne))

open_socket-Same :
    (sys : Sys) (s : Server) (id opaque j : ℕ)
    → j ≢ hash_id id
    → SameAt j s (open_socket sys s id opaque)
unfolding open_socket
open_socket-Same sys s id opaque j ne =
    Same-After j s (tell s id opaque 0 null)
      (open_resolved sys.resolves sys (tell s id opaque 0 null) id opaque) (ground arith)
      (open_resolved-Same sys.resolves sys (tell s id opaque 0 null) id opaque j ne)

-- A request leaves every slot but that of its id alone, and the pending events, the rest of the
-- pipe and the id counter too, whatever the system answers.
pub ctrl_cmd-Same :
    (sys : Sys) (s : Server) (r : Request) (j : ℕ)
    → slot_of r ≢ some j
    → SameAt j s (ctrl_cmd sys s r)
unfolding ctrl_cmd
ctrl_cmd-Same sys s (start id opaque) j ne =
    start_socket-Same sys s id opaque j (λ e. ne (ap some (sym e)))
ctrl_cmd-Same sys s (bind id fd opaque) j ne =
    bind_socket-Same sys s id fd opaque j (λ e. ne (ap some (sym e)))
ctrl_cmd-Same sys s (listening id fd opaque) j ne =
    listen_socket-Same s id fd opaque j (λ e. ne (ap some (sym e)))
ctrl_cmd-Same sys s (close id opaque) j ne =
    close_socket-Same sys s id opaque j (λ e. ne (ap some (sym e)))
ctrl_cmd-Same sys s (connect id port opaque host) j ne =
    open_socket-Same sys s id opaque j (λ e. ne (ap some (sym e)))
ctrl_cmd-Same sys s exit j ne = ground arith
ctrl_cmd-Same sys s (send id buffer) j ne =
    send_socket-Same sys s id buffer j (λ e. ne (ap some (sym e)))
ctrl_cmd-Same sys s (setopt id what value) j ne = setopt_socket-Same s id what value j
ctrl_cmd-Same sys s (ignored byte) j ne = Same-refl j s

-- The id that a request names, where it needs a live socket.
abbrev pub live_id_of : Request → Option ℕ
live_id_of (start id opaque) = some id
live_id_of (close id opaque) = some id
live_id_of (send id buffer) = some id
live_id_of (setopt id what value) = some id
live_id_of r = none

-- A start, close, send or set-option request whose id is not that of the live socket in its slot
-- touches no slot and makes no system call.
pub ctrl_cmd-stale :
    (sys : Sys) (s : Server) (r : Request) (id : ℕ)
    → live_id_of r ≡ some id
    → is_stale s id ≡ true
    → After (λ q. (q.0.slots ≡ s.slots) × (q.0.calls ≡ s.calls)) (ctrl_cmd sys s r)
unfolding ctrl_cmd start_socket close_socket send_socket setopt_socket
ctrl_cmd-stale sys s (start i opaque) id e h = ground arith
ctrl_cmd-stale sys s (close i opaque) id e h = ground arith
ctrl_cmd-stale sys s (send i buffer) id e h = ground arith
ctrl_cmd-stale sys s (setopt i what value) id e h = ground arith
ctrl_cmd-stale sys s r id e h = cc
