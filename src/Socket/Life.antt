-- ===== src/Socket/Life.antt =====
-- The life of a socket: the states that it goes through, and how its id and its descriptor stay
-- with it from the time it is opened to the time its slot is freed.
pub mod Requests
pub mod Waiting
pub mod Events
pub mod Steps
pub mod Opens
mod Tests
use canna.Prelude.{
  ℕ, ◌+◌, ◌<◌, ◌≡◌, Bool, true, List, [], ◌∷◌, Option, ◌==◌, ◌||◌, ◌&&◌, if◌then◌else◌,
}
use canna.Socket.Types.{
  SocketType, Request, bind, listening, connect, hash_id, max_socket, invalid, reserve, plisten,
  listen, connecting, connected, paccept, bound, is, Socket, Server,
}
use canna.Socket.Send.{After}

-- The steps between states, one call or one round of `poll` long.
abbrev pub edge : SocketType → SocketType → Bool
edge t u =
    is t u
    || (is t invalid && (is u reserve || is u paccept))
    || (is t reserve
        && (is u invalid || is u bound || is u plisten || is u connecting || is u connected))
    || (is t plisten && (is u listen || is u invalid))
    || ((is t paccept || is t connecting) && (is u connected || is u invalid))
    || ((is t listen || is t connected || is t bound) && is u invalid)

-- Open before and after: the id and the descriptor are the same.
abbrev pub keeps : Socket → Socket → Bool
keeps a b =
    is a.type invalid || is a.type reserve || is b.type invalid || (b.id == a.id && b.fd == a.fd)

abbrev pub lives : Socket → Socket → Bool
lives a b = edge a.type b.type && keeps a b

-- The slot `j` behind a run that did not abort.
abbrev pub LivesAt : {R : Type 0} → ℕ → Server → Option (Server × R) → Type 0
LivesAt j s = After (λ q. lives (s.slots j) (q.0.slots j) ≡ true)

-- Whether a slot is reserved, and whether a request is to open the socket in the slot `k`.
abbrev pub is_reserved : Socket → ℕ
is_reserved sock = if is sock.type reserve then 1 else 0

abbrev pub opens_at : ℕ → Request → ℕ
opens_at k (bind id fd opaque) = if hash_id id == k then 1 else 0
opens_at k (listening id fd opaque) = if hash_id id == k then 1 else 0
opens_at k (connect id port opaque host) = if hash_id id == k then 1 else 0
opens_at k r = 0

-- The requests in the pipe that are to open the socket in the slot `k`.
abbrev pub opening : ℕ → List Request → ℕ
opening k [] = 0
opening k (r ∷ rest) = opens_at k r + opening k rest

-- A reserved slot has just one request in the pipe that will open it, and any other slot none.
abbrev pub Waits : Server → Type 0
Waits s = (k : ℕ) → k < max_socket → opening k s.pipe ≡ is_reserved (s.slots k)
