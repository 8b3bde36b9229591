-- ===== src/Broker.antt =====
-- example/lbbroker.cpp: the load balancer, which hands each client's request to the worker that has
-- been ready for longest. A frame is its bytes; the empty frames between the others, which the
-- program asserts, come from the REQ sockets of clients and workers and are left out.
pub mod Balance
pub mod Replies
pub mod Farm
mod Tests
use canna.Prelude.{
  ℕ, zero, suc, ◌+◌, ◌-◌, Bool, true, false, List, [], ◌∷◌, ◌++◌, Option, none, some, if◌then◌else◌,
  ◌==◌, ◌&&◌,
}

abbrev pub Frame : Type 0
Frame = List ℕ

-- "READY"
abbrev pub ready : Frame
ready = b'R' ∷ b'E' ∷ b'A' ∷ b'D' ∷ b'Y' ∷ []

abbrev pub frame_eq : Frame → Frame → Bool
frame_eq [] [] = true
frame_eq [] (y ∷ ys) = false
frame_eq (x ∷ xs) [] = false
frame_eq (x ∷ xs) (y ∷ ys) = x == y && frame_eq xs ys

-- What `backend` receives: the worker's identity, then "READY" or a client's address and a reply.
pub record FromWorker : Type 0 where
  pub worker : Frame
  pub client_addr : Frame
  pub reply : Frame

-- What `frontend` receives.
pub record FromClient : Type 0 where
  pub client_addr : Frame
  pub request : Frame

-- What `backend` sends: a client's request, to a worker.
pub record Job : Type 0 where
  pub worker_addr : Frame
  pub client_addr : Frame
  pub request : Frame

-- The variables of `main`, and what the sockets have sent, in order.
pub record Broker : Type 0 where
  pub worker_queue : List Frame
  pub client_count : ℕ
  pub replies : List (Frame × Frame)
  pub jobs : List Job

-- The messages that one call of `zmq::poll` reports.
pub record Arrived : Type 0 where
  pub backend : Option FromWorker
  pub frontend : Option FromClient

-- A round goes on or ends the loop.
pub data Turn : Type 0 where
  goes_on : Broker → Turn
  breaks : Broker → Turn

-- `items[0]`: the worker is ready again, and its reply goes to the client.
unfoldable pub from_worker : FromWorker → Broker → Turn
from_worker m b =
    let b' = record b { worker_queue = b.worker_queue ++ m.worker ∷ [] } in
    let sent = record b' {
      replies = b.replies ++ (m.client_addr, m.reply) ∷ [];
      client_count = b.client_count - 1;
    } in
    if frame_eq m.client_addr ready
    then goes_on b'
    else if b.client_count == 1
    then breaks sent
    else goes_on sent

-- `items[1]`: the request goes to the worker at the front; `none` where there is none.
unfoldable pub from_client : FromClient → Broker → Option Broker
from_client m b = elim b.worker_queue [
  | [] ↦ none
  | worker ∷ rest ↦ some (record b {
    worker_queue = rest;
    jobs =
        b.jobs
        ++ record { worker_addr = worker; client_addr = m.client_addr; request = m.request } ∷ [];
  })
]

unfoldable pub take_backend : Option FromWorker → Broker → Turn
take_backend none b = goes_on b
take_backend (some m) b = from_worker m b

-- The second test of a round: `frontend` was polled only if a worker was ready then.
unfoldable pub take_frontend : Option FromClient → Bool → Turn → Option Turn
take_frontend m polled (breaks b) = some (breaks b)
take_frontend none polled (goes_on b) = some (goes_on b)
take_frontend (some m) false (goes_on b) = some (goes_on b)
take_frontend (some m) true (goes_on b) = elim (from_client m b) [
  | none ↦ none
  | some b' ↦ some (goes_on b')
]

abbrev pub has_worker : List Frame → Bool
has_worker [] = false
has_worker (worker ∷ rest) = true

-- One round of the loop; `none` is `front` or `pop` on an empty queue.
unfoldable pub turn : Arrived → Broker → Option Turn
turn a b = take_frontend a.frontend (has_worker b.worker_queue) (take_backend a.backend b)

-- The loop over what arrives in each of its rounds; it ends at a `break`.
unfoldable pub main_loop : List Arrived → Broker → Option Broker
main_loop [] b = some b
main_loop (a ∷ rest) b = elim (turn a b) [
  | none ↦ none
  | some (breaks b') ↦ some b'
  | some (goes_on b') ↦ main_loop rest b'
]
