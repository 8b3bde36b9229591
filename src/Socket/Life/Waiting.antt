-- ===== src/Socket/Life/Waiting.antt =====
-- A request that opens a socket takes its slot out of the reservation, and no other request does.
use canna.Prelude.{
  ℕ, ◌+◌, ◌<◌, ◌≤◌, ◌≡◌, inl, inr, Bool, true, List, [], ◌∷◌, Option, none, some, arith,
  Option-cases, ==_self, sym,
}
use canna.Socket.Types.{
  reserve, is, hash_id, max_socket, Server, Sys, Request, start, bind, listening, close, connect,
  exit, send, setopt, ignored, Attempt, Payload, tell, null,
}
use canna.Socket.Slots.{new_socket, force_close}
use canna.Socket.Send.{◌>>=◌, After}
use canna.Socket.Commands.{
  start_socket, bind_socket, listen_socket, close_socket, close_flushed, open_socket, open_resolved,
  open_connected, try_connect, send_socket, setopt_socket, ctrl_cmd,
}
use canna.Socket.Tidy.{IsTidy, try_connect-slots}
use canna.Socket.Life.{is_reserved, opens_at}

-- What a run leaves of the reservation of the slot `j`, where so many requests to open it go.
abbrev pub Leaves : {R : Type 0} → ℕ → ℕ → Server → Option (Server × R) → Type 0
Leaves j n s = After (λ q. is_reserved (q.0.slots j) + n ≡ is_reserved (s.slots j))

start_socket-Leaves :
    (sys : Sys) (s : Server) (id opaque j : ℕ) → Leaves j 0 s (start_socket sys s id opaque)
unfolding start_socket
start_socket-Leaves sys s id opaque j = ground arith

bind_socket-Leaves :
    (sys : Sys) (s : Server) (id fd opaque j : ℕ)
    → Leaves j (opens_at j (bind id fd opaque)) s (bind_socket sys s id fd opaque)
unfolding bind_socket new_socket
bind_socket-Leaves sys s id fd opaque j = ground arith

listen_socket-Leaves :
    (s : Server) (id fd opaque j : ℕ)
    → Leaves j (opens_at j (listening id fd opaque)) s (listen_socket s id fd opaque)
unfolding listen_socket new_socket
listen_socket-Leaves s id fd opaque j = ground arith

pub force_close-Leaves :
    (s : Server) (k j : ℕ)
    → After (λ t. is_reserved (t.slots j) ≡ is_reserved (s.slots j)) (force_close s k)
unfolding force_close
force_close-Leaves s k j = ground arith

close_socket-Leaves :
    (sys : Sys) (s : Server) (id opaque j : ℕ)
    → IsTidy (hash_id id) (s.slots (hash_id id))
    → Leaves j 0 s (close_socket sys s id opaque)
unfolding close_socket close_flushed force_close
close_socket-Leaves sys s id opaque j v = ground arith

open_connected-Leaves :
    (sys : Sys) (s : Server) (id port opaque fd : ℕ) (host : List ℕ) (done : Bool)
    (printed : Payload) (j : ℕ)
    → Leaves j
        (opens_at j (connect id port opaque host))
        s
        (open_connected sys s id opaque fd done printed)
unfolding open_connected new_socket
open_connected-Leaves sys s id port opaque fd host done printed j = ground arith

open_attempts-Leaves :
    (sys : Sys) (s : Server) (id port opaque : ℕ) (host : List ℕ) (attempts : List Attempt) (j : ℕ)
    → Leaves j (opens_at j (connect id port opaque host)) s (
        try_connect attempts s >>= λ (u, fd, done, printed).
        open_connected sys u id opaque fd done printed)
open_attempts-Leaves sys s id port opaque host attempts j =
    elim (Option-cases (try_connect attempts s)) [
      | inl e ↦ rw e tt
      | inr ((u, fd, done, printed), e) ↦ rw e (
          rw (sym (try_connect-slots attempts s u fd done printed e))
            (open_connected-Leaves sys u id port opaque fd host done printed j))
    ]

-- `open_socket` gives the slot up without a test, so the slot has to be reserved.
open_resolved-Leaves :
    (found : Option (List Attempt)) (sys : Sys) (s : Server) (id port opaque : ℕ) (host : List ℕ)
    (j : ℕ)
    → is (s.slots (hash_id id)).type reserve ≡ true
    → Leaves j (opens_at j (connect id port opaque host)) s (open_resolved found sys s id opaque)
unfolding open_resolved
open_resolved-Leaves none sys s id port opaque host j h = ground arith
open_resolved-Leaves (some []) sys s id port opaque host j h = ground arith
open_resolved-Leaves (some (a ∷ rest)) sys s id port opaque host j h =
    open_attempts-Leaves sys s id port opaque host (a ∷ rest) j

send_socket-Leaves :
    (sys : Sys) (s : Server) (id : ℕ) (buffer : List ℕ) (j : ℕ)
    → Leaves j 0 s (send_socket sys s id buffer)
unfolding send_socket force_close
send_socket-Leaves sys s id buffer j = ground arith

-- Where a slot is opened only while it is reserved, a request takes from the reservation of any
-- slot just what it is to open.
pub ctrl_cmd-Leaves :
    (sys : Sys) (s : Server) (r : Request) (j : ℕ)
    → ((k : ℕ) → k < max_socket → IsTidy k (s.slots k))
    → ((k : ℕ) → k < max_socket → opens_at k r ≤ is_reserved (s.slots k))
    → Leaves j (opens_at j r) s (ctrl_cmd sys s r)
unfolding ctrl_cmd open_socket setopt_socket
ctrl_cmd-Leaves sys s (start id opaque) j v h = start_socket-Leaves sys s id opaque j
ctrl_cmd-Leaves sys s (bind id fd opaque) j v h = bind_socket-Leaves sys s id fd opaque j
ctrl_cmd-Leaves sys s (listening id fd opaque) j v h = listen_socket-Leaves s id fd opaque j
ctrl_cmd-Leaves sys s (close id opaque) j v h =
    close_socket-Leaves sys s id opaque j (v (hash_id id) (omega arith))
ctrl_cmd-Leaves sys s (connect id port opaque host) j v h =
    open_resolved-Leaves sys.resolves sys (tell s id opaque 0 null) id port opaque host j
      (ground (arith, h (hash_id id) (omega arith), ==_self (hash_id id)))
ctrl_cmd-Leaves sys s exit j v h = ground arith
ctrl_cmd-Leaves sys s (send id buffer) j v h = send_socket-Leaves sys s id buffer j
ctrl_cmd-Leaves sys s (setopt id what value) j v h = ground arith
ctrl_cmd-Leaves sys s (ignored byte) j v h = ground arith
