-- ===== src/Cluster.antt =====
-- example/cluster.cpp: a broker that dumps what it hears and queues its workers.
pub mod Queued
pub mod Hangs
pub mod Clients
mod Tests
use canna.Prelude.{
  ℕ, zero, suc, ◌+◌, Bool, true, false, List, [], ◌∷◌, ◌++◌, Option, none, some, if◌then◌else◌,
}
use canna.Broker.{Frame}
use canna.Core.{dump}

-- A message from a REQ socket of a worker, in three frames: its identity, the empty one, and a text.
pub record FromWorker : Type 0 where
  pub identity : Frame
  pub text : Frame

abbrev pub parts : FromWorker → List Frame
parts m = m.identity ∷ [] ∷ m.text ∷ []

-- The broker: what is still to come on `localbe`, `cloudbe` and `monitor`, the queue, how often it
-- has sent "CLOUD", and the standard output, with whether its base is 16.
pub record Cluster : Type 0 where
  pub localbe : List FromWorker
  pub cloudbe : List (List Frame)
  pub monitor : List Frame
  pub worker_queue : List Frame
  pub clouds : ℕ
  pub hex : Bool
  pub out : List ℕ

-- What a poll reports; what it reports of `statefe` is not read.
pub record Polled : Type 0 where
  pub on_localbe : Bool
  pub on_cloudbe : Bool
  pub on_monitor : Bool

-- `canna_dump` of a message.
unfoldable pub dumped : List Frame → Cluster → Cluster
dumped frames c = let d = dump c.hex frames in record c { hex = d.0; out = c.out ++ d.1 }

-- A message on `localbe` is dumped, which takes all of it, and the next one is received; `none`
-- where this waits for ever.
unfoldable pub hear_worker : Cluster → Option Cluster
hear_worker c = elim c.localbe [
  | [] ↦ none
  | first ∷ rest ↦
      let d = dumped (parts first) c in
      elim rest [
        | [] ↦ none
        | m ∷ later ↦
            some (record d { localbe = later; worker_queue = d.worker_queue ++ m.identity ∷ [] })
      ]
]

unfoldable pub hear_cloud : Cluster → Option Cluster
hear_cloud c = elim c.cloudbe [
  | [] ↦ none
  | first ∷ rest ↦ some (record (dumped first c) { cloudbe = rest })
]

unfoldable pub hear_backends : Polled → Cluster → Option Cluster
hear_backends p c =
    if p.on_localbe then hear_worker c else (if p.on_cloudbe then hear_cloud c else some c)

unfoldable pub hear_monitor : Polled → Cluster → Option Cluster
hear_monitor p c = elim p.on_monitor [
  | false ↦ some c
  | true ↦ elim c.monitor [
    | [] ↦ none
    | status ∷ rest ↦ some (record c { monitor = rest; out = c.out ++ status ++ 10 ∷ [] })
  ]
]

-- One round of the loop.
unfoldable pub cluster_round : Polled → Cluster → Option Cluster
cluster_round p c = elim (hear_backends p c) [
  | none ↦ none
  | some d ↦ elim (hear_monitor p d) [
    | none ↦ none
    | some e ↦ some (record e { clouds = e.clouds + 1 })
  ]
]

unfoldable pub cluster_loop : List Polled → Cluster → Option Cluster
cluster_loop [] c = some c
cluster_loop (p ∷ rest) c = elim (cluster_round p c) [ none ↦ none | some d ↦ cluster_loop rest d ]

-- "WORK" and "E: CLIENT EXIT - lost task"
abbrev pub work : Frame
work = b'W' ∷ b'O' ∷ b'R' ∷ b'K' ∷ []

abbrev pub lost_task : Frame
lost_task =
    b'E' ∷ b':' ∷ b' ' ∷ b'C' ∷ b'L' ∷ b'I' ∷ b'E' ∷ b'N' ∷ b'T' ∷ b' ' ∷ b'E' ∷ b'X' ∷ b'I' ∷ b'T'
    ∷ b' ' ∷ b'-' ∷ b' ' ∷ b'l' ∷ b'o' ∷ b's' ∷ b't' ∷ b' ' ∷ b't' ∷ b'a' ∷ b's' ∷ b'k' ∷ []

-- The thread of a client: what it sends to `monitor` when its poll has returned, with a reply or
-- without one.
unfoldable pub client_status : Option Frame → Frame
client_status none = lost_task
client_status (some reply) = reply

-- A burst of so many requests, over what the polls find; where they end, the last has not returned.
-- The requests that it sends, and the statuses.
unfoldable pub client_burst : ℕ → List (Option Frame) → List Frame × List Frame
client_burst zero polls = ([], [])
client_burst (suc burst) [] = (work ∷ [], [])
client_burst (suc burst) (reply ∷ polls) =
    let (requests, statuses) = client_burst burst polls in
    (work ∷ requests, client_status reply ∷ statuses)
