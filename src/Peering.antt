-- ===== src/Peering.antt =====
-- example/peering1.cpp: a broker that hands the requests of its own clients to its own workers, and
-- tells a peer of each. The empty frames between the others, which come from REQ sockets, are left
-- out, and so is what is printed.
pub mod Capacity
pub mod Answered
mod Tests
use canna.Prelude.{
  ℕ, zero, suc, ◌+◌, ◌-◌, Bool, true, false, List, [], ◌∷◌, ◌++◌, Option, none, some, if◌then◌else◌,
  ◌==◌,
}
use canna.Broker.{Frame, ready, frame_eq}

-- "SUCCESS", "ACK ECHO", "CLOUD" and "WORLD"
abbrev pub success : Frame
success = b'S' ∷ b'U' ∷ b'C' ∷ b'C' ∷ b'E' ∷ b'S' ∷ b'S' ∷ []

abbrev pub ack_echo : Frame
ack_echo = b'A' ∷ b'C' ∷ b'K' ∷ b' ' ∷ b'E' ∷ b'C' ∷ b'H' ∷ b'O' ∷ []

abbrev pub cloud_text : Frame
cloud_text = b'C' ∷ b'L' ∷ b'O' ∷ b'U' ∷ b'D' ∷ []

abbrev pub world : Frame
world = b'W' ∷ b'O' ∷ b'R' ∷ b'L' ∷ b'D' ∷ []

-- What the broker sends: on `localfe` to a client, on `cloudfe` and `cloudbe` to a peer, and on
-- `localbe` to a worker, for a client.
pub data Sent : Type 0 where
  to_client : (client text : Frame) → Sent
  to_peer : (peer text : Frame) → Sent
  to_cloud : (peer text : Frame) → Sent
  to_worker : (worker client text : Frame) → Sent

-- The variables of the loop; `cloud` is the last of the peers on the command line, if there is one.
pub record Peering : Type 0 where
  pub cloud : Option Frame
  pub capacity : ℕ
  pub worker_queue : List Frame
  pub sent : List Sent

-- What `localbe` receives: a worker, then "READY" or the client it has served.
pub record FromWorker : Type 0 where
  pub work_identity : Frame
  pub client_addr : Frame

-- What one poll of the frontends reports: a client on `localfe`, a peer on `cloudfe`.
pub record Frontends : Type 0 where
  pub localfe : Option Frame
  pub cloudfe : Option Frame

-- What one round of the outer loop finds: a worker, and the polls of the inner loop.
pub record Found : Type 0 where
  pub localbe : Option FromWorker
  pub polls : List Frontends

abbrev pub send : Sent → Peering → Peering
send m p = record p { sent = p.sent ++ m ∷ [] }

-- `pollset[0]`; a message on `cloudbe`, `pollset[1]`, is only printed.
unfoldable pub from_worker : Option FromWorker → Peering → Peering
from_worker none p = p
from_worker (some m) p =
    let p' = record p {
      worker_queue = p.worker_queue ++ m.work_identity ∷ [];
      capacity = p.capacity + 1;
    } in
    if frame_eq m.client_addr ready then p' else send (to_client m.client_addr success) p'

-- `frontends[1]`
unfoldable pub from_peer : Option Frame → Peering → Peering
from_peer none p = p
from_peer (some cloud_identity) p = send (to_peer cloud_identity ack_echo) p

-- `frontends[0]` with a client's message; `none` where there is no peer, or `front` and `pop` find
-- no worker.
unfoldable pub from_client : Frame → Peering → Option Peering
from_client identity p = elim p.cloud [
  | none ↦ none
  | some peer ↦ elim p.worker_queue [
    | [] ↦ none
    | worker_addr ∷ rest ↦ some (record p {
      worker_queue = rest;
      capacity = p.capacity - 1;
      sent = p.sent ++ to_cloud peer cloud_text ∷ to_worker worker_addr identity world ∷ [];
    })
  ]
]

-- The inner loop, over what its polls report; with no message from a client it breaks.
unfoldable pub frontends_loop : List Frontends → Peering → Option Peering
frontends_loop [] p = some p
frontends_loop (f ∷ rest) p = elim (p.capacity == 0) [
  | true ↦ some p
  | false ↦ elim f.localfe [
    | none ↦ some (from_peer f.cloudfe p)
    | some identity ↦ elim (from_client identity (from_peer f.cloudfe p)) [
      | none ↦ none
      | some p' ↦ frontends_loop rest p'
    ]
  ]
]

-- One round of the outer loop.
unfoldable pub main_round : Found → Peering → Option Peering
main_round f p = frontends_loop f.polls (from_worker f.localbe p)

unfoldable pub main_loop : List Found → Peering → Option Peering
main_loop [] p = some p
main_loop (f ∷ rest) p = elim (main_round f p) [ none ↦ none | some p' ↦ main_loop rest p' ]

-- The broker before the loop, for the peers of the command line.
abbrev pub last_of : List Frame → Option Frame
last_of [] = none
last_of (peer ∷ []) = some peer
last_of (peer ∷ peers) = last_of peers

unfoldable pub new_peering : List Frame → Peering
new_peering peers = record { cloud = last_of peers; capacity = 0; worker_queue = []; sent = [] }

-- The thread of a worker, `worker_task`: what `localbe` receives of it at its start, and for the
-- message that it was sent. The text, which it sends back, is not read by the broker.
unfoldable pub worker_ready : Frame → FromWorker
worker_ready worker = record { work_identity = worker; client_addr = ready }

unfoldable pub worker_turn : (worker address reply : Frame) → FromWorker
worker_turn worker address reply = record { work_identity = worker; client_addr = address }
