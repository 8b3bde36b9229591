-- ===== src/Socket/Life/Requests.antt =====
-- The requests move a socket along its life.
use canna.Prelude.{
  ℕ, ◌<◌, ◌≤◌, ◌≡◌, inl, inr, Bool, true, List, [], ◌∷◌, Option, none, some, arith, Option-cases,
  ==_self, sym,
}
use canna.Socket.Types.{
  reserve, is, hash_id, max_socket, Socket, Server, Sys, Request, start, bind, listening, close,
  connect, exit, send, setopt, ignored, Attempt, Payload, tell, null,
}
use canna.Socket.Slots.{new_socket, force_close}
use canna.Socket.Send.{◌>>=◌, After}
use canna.Socket.Commands.{
  start_socket, bind_socket, listen_socket, close_socket, close_flushed, open_socket, open_resolved,
  open_connected, try_connect, send_socket, setopt_socket, ctrl_cmd,
}
use canna.Socket.Tidy.{IsTidy, try_connect-slots}
use canna.Socket.Life.{lives, LivesAt, opens_at, is_reserved}

pub lives_self : (a : Socket) → lives a a ≡ true
lives_self a = ground (arith, ==_self a.id, ==_self a.fd)

start_socket-lives :
    (sys : Sys) (s : Server) (id opaque j : ℕ) → LivesAt j s (start_socket sys s id opaque)
unfolding start_socket
start_socket-lives sys s id opaque j = ground (arith, lives_self (s.slots j))

bind_socket-lives :
    (sys : Sys) (s : Server) (id fd opaque j : ℕ) → LivesAt j s (bind_socket sys s id fd opaque)
unfolding bind_socket new_socket
bind_socket-lives sys s id fd opaque j = ground (arith, lives_self (s.slots j))

listen_socket-lives : (s : Server) (id fd opaque j : ℕ) → LivesAt j s (listen_socket s id fd opaque)
unfolding listen_socket new_socket
listen_socket-lives s id fd opaque j = ground (arith, lives_self (s.slots j))

pub force_close-lives :
    (s : Server) (k j : ℕ)
    → IsTidy k (s.slots k)
    → After (λ t. lives (s.slots j) (t.slots j) ≡ true) (force_close s k)
unfolding force_close
force_close-lives s k j v = ground (arith, lives_self (s.slots j))

close_socket-lives :
    (sys : Sys) (s : Server) (id opaque j : ℕ)
    → IsTidy (hash_id id) (s.slots (hash_id id))
    → LivesAt j s (close_socket sys s id opaque)
unfolding close_socket close_flushed force_close
close_socket-lives sys s id opaque j v = ground (arith, lives_self (s.slots j))

open_connected-lives :
    (sys : Sys) (s : Server) (id opaque fd : ℕ) (done : Bool) (printed : Payload) (j : ℕ)
    → LivesAt j s (open_connected sys s id opaque fd done printed)
unfolding open_connected new_socket
open_connected-lives sys s id opaque fd done printed j = ground (arith, lives_self (s.slots j))

open_attempts-lives :
    (sys : Sys) (s : Server) (id opaque : ℕ) (attempts : List Attempt) (j : ℕ)
    → LivesAt j s (
        try_connect attempts s >>= λ (u, fd, done, printed).
        open_connected sys u id opaque fd done printed)
open_attempts-lives sys s id opaque attempts j = elim (Option-cases (try_connect attempts s)) [
  | inl e ↦ rw e tt
  | inr ((u, fd, done, printed), e) ↦ rw e (
      rw (sym (try_connect-slots attempts s u fd done printed e))
        (open_connected-lives sys u id opaque fd done printed j))
]

open_resolved-lives :
    (found : Option (List Attempt)) (sys : Sys) (s : Server) (id opaque j : ℕ)
    → is (s.slots (hash_id id)).type reserve ≡ true
    → LivesAt j s (open_resolved found sys s id opaque)
unfolding open_resolved
open_resolved-lives none sys s id opaque j h = ground (arith, lives_self (s.slots j))
open_resolved-lives (some []) sys s id opaque j h = ground (arith, lives_self (s.slots j))
open_resolved-lives (some (a ∷ rest)) sys s id opaque j h =
    open_attempts-lives sys s id opaque (a ∷ rest) j

send_socket-lives :
    (sys : Sys) (s : Server) (id : ℕ) (buffer : List ℕ) (j : ℕ)
    → IsTidy (hash_id id) (s.slots (hash_id id))
    → LivesAt j s (send_socket sys s id buffer)
unfolding send_socket force_close
send_socket-lives sys s id buffer j v = ground (arith, lives_self (s.slots j))

-- Where a slot is opened only while it is reserved, a request moves every socket along its life.
pub ctrl_cmd-lives :
    (sys : Sys) (s : Server) (r : Request) (j : ℕ)
    → ((k : ℕ) → k < max_socket → IsTidy k (s.slots k))
    → ((k : ℕ) → k < max_socket → opens_at k r ≤ is_reserved (s.slots k))
    → LivesAt j s (ctrl_cmd sys s r)
unfolding ctrl_cmd open_socket setopt_socket
ctrl_cmd-lives sys s (start id opaque) j v h = start_socket-lives sys s id opaque j
ctrl_cmd-lives sys s (bind id fd opaque) j v h = bind_socket-lives sys s id fd opaque j
ctrl_cmd-lives sys s (listening id fd opaque) j v h = listen_socket-lives s id fd opaque j
ctrl_cmd-lives sys s (close id opaque) j v h =
    close_socket-lives sys s id opaque j (v (hash_id id) (omega arith))
ctrl_cmd-lives sys s (connect id port opaque host) j v h =
    open_resolved-lives sys.resolves sys (tell s id opaque 0 null) id opaque j
      (ground (arith, h (hash_id id) (omega arith), ==_self (hash_id id)))
ctrl_cmd-lives sys s exit j v h = lives_self (s.slots j)
ctrl_cmd-lives sys s (send id buffer) j v h =
    send_socket-lives sys s id buffer j (v (hash_id id) (omega arith))
ctrl_cmd-lives sys s (setopt id what value) j v h = ground (arith, lives_self (s.slots j))
ctrl_cmd-lives sys s (ignored byte) j v h = lives_self (s.slots j)
