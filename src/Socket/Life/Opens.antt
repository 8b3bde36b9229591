-- ===== src/Socket/Life/Opens.antt =====
-- The requests that find their slot reserved.
use canna.Prelude.{
  ℕ, ◌≡◌, ◌∙◌, refl, sym, ap, inl, inr, Option-cases, Bool, true, false, List, ◌∷◌, Option, some,
  arith, ==_self,
}
use canna.Socket.Types.{is, reserve, hash_id, Socket, Server, Sys, Report, Request, bind, listening}
use canna.Socket.Slots.{new_socket}
use canna.Socket.Commands.{ctrl_cmd, bind_socket, listen_socket}
use canna.Socket.Reach.{Reach}
use canna.Socket.Life.{opens_at, opening}
use canna.Socket.Life.Steps.{Reach-Waits}

-- The requests of server_bind and server_listen.
abbrev pub brings_fd : Request → Bool
brings_fd (bind id fd opaque) = true
brings_fd (listening id fd opaque) = true
brings_fd r = false

abbrev Completes : Sys → Server → Request → Type 0
Completes sys s r = (q : Server × Option Report) × (ctrl_cmd sys s r ≡ some q)

bind_socket-reserved :
    (sys : Sys) (s : Server) (id fd opaque : ℕ)
    → is (s.slots (hash_id id)).type reserve ≡ true
    → (q : Server × Option Report) × (bind_socket sys s id fd opaque ≡ some q)
unfolding bind_socket new_socket
bind_socket-reserved sys s id fd opaque h = elim (Option-cases (bind_socket sys s id fd opaque)) [
  | inl e ↦ absurd (ground (arith, h, e))
  | inr made ↦ made
]

listen_socket-reserved :
    (s : Server) (id fd opaque : ℕ)
    → is (s.slots (hash_id id)).type reserve ≡ true
    → (q : Server × Option Report) × (listen_socket s id fd opaque ≡ some q)
unfolding listen_socket new_socket
listen_socket-reserved s id fd opaque h = rw h (_, refl)

-- The next request in the pipe, where it opens the slot of `id`.
next_reserved :
    {memory : ℕ → Socket} {s : Server} (reach : Reach memory s) (r : Request) (rest : List Request)
    (id : ℕ)
    → s.pipe ≡ r ∷ rest
    → opens_at (hash_id id) r ≡ 1
    → is (s.slots (hash_id id)).type reserve ≡ true
next_reserved {s = s} reach r rest id e one =
    let w = sym (ap (opening (hash_id id)) e) ∙ Reach-Waits reach (hash_id id) (omega arith) in
    ground (arith, w, one)

-- In every state that a server reaches, where no client has connected to an address of 232 bytes,
-- whose request the pipe tears, a bind or listen request that is the next in the pipe
-- passes the assertion that its slot is reserved: it is handled, whatever the system answers.
pub ctrl_cmd-brings_fd :
    {memory : ℕ → Socket} {s : Server} (reach : Reach memory s) (sys : Sys) (r : Request)
    (rest : List Request)
    → s.pipe ≡ r ∷ rest
    → brings_fd r ≡ true
    → (q : Server × Option Report) × (ctrl_cmd sys (record s { pipe = rest }) r ≡ some q)
unfolding ctrl_cmd
ctrl_cmd-brings_fd {s = s} reach sys (bind id fd opaque) rest e h =
    bind_socket-reserved sys (record s { pipe = rest }) id fd opaque
      (next_reserved reach (bind id fd opaque) rest id e (ground (arith, ==_self (hash_id id))))
ctrl_cmd-brings_fd {s = s} reach sys (listening id fd opaque) rest e h =
    listen_socket-reserved (record s { pipe = rest }) id fd opaque
      (next_reserved reach (listening id fd opaque) rest id e
        (ground (arith, ==_self (hash_id id))))
ctrl_cmd-brings_fd reach sys r rest e h = absurd (cc)
