-- ===== src/Socket/Tidy.antt =====
-- The invariant of the slots, and that the handlers of requests keep it. Since send_socket never
-- puts a buffer into a list, both lists of every socket stay empty.
use canna.Prelude.{
  ℕ, ◌<◌, ◌≡◌, ◌⊎◌, inl, inr, Bool, true, false, List, [], ◌∷◌, Option, none, some, arith,
  Option-cases,
}
use canna.Socket.Types.{
  invalid, halfclose, is, hash_id, max_socket, Socket, Server, Sys, Report, Request, start, bind,
  listening, close, connect, exit, send, setopt, ignored, Attempt, Payload, call, close_fd,
  set_nonblocking, set_keepalive, tell, null,
}
use canna.Socket.Slots.{new_socket, force_close}
use canna.Socket.Send.{◌>>=◌, After}
use canna.Socket.Commands.{
  start_socket, bind_socket, listen_socket, close_socket, close_flushed, open_socket, open_resolved,
  open_connected, try_connect, send_socket, setopt_socket, ctrl_cmd,
}

-- The socket in the slot `k` has nothing to send, is found by its id unless the slot is free, and
-- does not wait half closed.
pub record IsTidy (k : ℕ) (sock : Socket) : Type 0 where
  pub high_empty : sock.high ≡ []
  pub low_empty : sock.low ≡ []
  pub home : (is sock.type invalid ≡ true) ⊎ (hash_id sock.id ≡ k)
  pub not_half : is sock.type halfclose ≡ false

-- Every slot but those of a run that aborted is tidy, at the slot `j`.
abbrev pub TidyAt : ℕ → Option (Server × Option Report) → Type 0
TidyAt j = After (λ q. IsTidy j (q.0.slots j))

pub force_close-IsTidy :
    (s t : Server) (k j : ℕ)
    → IsTidy j (s.slots j)
    → force_close s k ≡ some t
    → IsTidy j (t.slots j)
unfolding force_close
force_close-IsTidy s t k j v h = ground arith

pub start_socket-IsTidy :
    (sys : Sys) (s : Server) (id opaque j : ℕ)
    → IsTidy j (s.slots j)
    → TidyAt j (start_socket sys s id opaque)
unfolding start_socket
start_socket-IsTidy sys s id opaque j v = ground arith

pub bind_socket-IsTidy :
    (sys : Sys) (s : Server) (id fd opaque j : ℕ)
    → IsTidy j (s.slots j)
    → TidyAt j (bind_socket sys s id fd opaque)
unfolding bind_socket new_socket
bind_socket-IsTidy sys s id fd opaque j v = ground arith

pub listen_socket-IsTidy :
    (s : Server) (id fd opaque j : ℕ)
    → IsTidy j (s.slots j)
    → TidyAt j (listen_socket s id fd opaque)
unfolding listen_socket new_socket
listen_socket-IsTidy s id fd opaque j v = ground arith

pub close_socket-IsTidy :
    (sys : Sys) (s : Server) (id opaque j : ℕ)
    → IsTidy (hash_id id) (s.slots (hash_id id))
    → IsTidy j (s.slots j)
    → TidyAt j (close_socket sys s id opaque)
unfolding close_socket close_flushed force_close
close_socket-IsTidy sys s id opaque j u v = ground arith

open_connected-IsTidy :
    (sys : Sys) (s : Server) (id opaque fd : ℕ) (done : Bool) (printed : Payload) (j : ℕ)
    → IsTidy j (s.slots j)
    → TidyAt j (open_connected sys s id opaque fd done printed)
unfolding open_connected new_socket
open_connected-IsTidy sys s id opaque fd done printed j v = ground arith

-- The loop over the addresses touches no slot.
pub try_connect-slots :
    (attempts : List Attempt) (s u : Server) (fd : ℕ) (done : Bool) (printed : Payload)
    → try_connect attempts s ≡ some (u, fd, done, printed)
    → u.slots ≡ s.slots
unfolding try_connect
try_connect-slots [] s u fd done printed h = cc
try_connect-slots (a ∷ rest) s u fd done printed h = elim (Option-cases a.sock) [
  | inl e ↦ try_connect-slots rest s u fd done printed (rw (e, try_connect) at h)
  | inr (d, e) ↦ ground (
    arith,
    try_connect-slots rest (call (close_fd d) (call (set_nonblocking d) (call (set_keepalive d) s)))
        u fd done printed,
  )
]

open_attempts-IsTidy :
    (sys : Sys) (s : Server) (id opaque : ℕ) (attempts : List Attempt) (j : ℕ)
    → IsTidy j (s.slots j)
    → TidyAt j (
        try_connect attempts s >>= λ (u, fd, done, printed).
        open_connected sys u id opaque fd done printed)
open_attempts-IsTidy sys s id opaque attempts j v = elim (Option-cases (try_connect attempts s)) [
  | inl e ↦ rw e tt
  | inr ((u, fd, done, printed), e) ↦ rw e (
      open_connected-IsTidy sys u id opaque fd done printed j
        (rw (try_connect-slots attempts s u fd done printed e) v))
]

open_resolved-IsTidy :
    (found : Option (List Attempt)) (sys : Sys) (s : Server) (id opaque j : ℕ)
    → IsTidy j (s.slots j)
    → TidyAt j (open_resolved found sys s id opaque)
unfolding open_resolved
open_resolved-IsTidy none sys s id opaque j v = ground arith
open_resolved-IsTidy (some []) sys s id opaque j v = ground arith
open_resolved-IsTidy (some (a ∷ rest)) sys s id opaque j v =
    open_attempts-IsTidy sys s id opaque (a ∷ rest) j v

pub open_socket-IsTidy :
    (sys : Sys) (s : Server) (id opaque j : ℕ)
    → IsTidy j (s.slots j)
    → TidyAt j (open_socket sys s id opaque)
unfolding open_socket
open_socket-IsTidy sys s id opaque j v =
    open_resolved-IsTidy sys.resolves sys (tell s id opaque 0 null) id opaque j v

pub send_socket-IsTidy :
    (sys : Sys) (s : Server) (id : ℕ) (buffer : List ℕ) (j : ℕ)
    → IsTidy j (s.slots j)
    → TidyAt j (send_socket sys s id buffer)
unfolding send_socket force_close
send_socket-IsTidy sys s id buffer j v = ground arith

pub setopt_socket-IsTidy :
    (s : Server) (id what value j : ℕ)
    → IsTidy j (s.slots j)
    → IsTidy j ((setopt_socket s id what value).slots j)
unfolding setopt_socket
setopt_socket-IsTidy s id what value j v = ground arith

-- No request takes a slot out of the invariant.
pub ctrl_cmd-IsTidy :
    (sys : Sys) (s : Server) (r : Request) (j : ℕ)
    → ((k : ℕ) → k < max_socket → IsTidy k (s.slots k))
    → j < max_socket
    → TidyAt j (ctrl_cmd sys s r)
unfolding ctrl_cmd
ctrl_cmd-IsTidy sys s (start id opaque) j v p = start_socket-IsTidy sys s id opaque j (v j p)
ctrl_cmd-IsTidy sys s (bind id fd opaque) j v p = bind_socket-IsTidy sys s id fd opaque j (v j p)
ctrl_cmd-IsTidy sys s (listening id fd opaque) j v p = listen_socket-IsTidy s id fd opaque j (v j p)
ctrl_cmd-IsTidy sys s (close id opaque) j v p =
    close_socket-IsTidy sys s id opaque j (v (hash_id id) (omega arith)) (v j p)
ctrl_cmd-IsTidy sys s (connect id port opaque host) j v p =
    open_socket-IsTidy sys s id opaque j (v j p)
ctrl_cmd-IsTidy sys s exit j v p = v j p
ctrl_cmd-IsTidy sys s (send id buffer) j v p = send_socket-IsTidy sys s id buffer j (v j p)
ctrl_cmd-IsTidy sys s (setopt id what value) j v p = setopt_socket-IsTidy s id what value j (v j p)
ctrl_cmd-IsTidy sys s (ignored byte) j v p = v j p
