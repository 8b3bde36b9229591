-- ===== src/Ipc.antt =====
-- example/cluster.cpp, peering1.cpp and peering.cpp: the names of the sockets of a broker, which are
-- printed into arrays of 64 bytes, and the calls of main and of its threads up to their loops.
pub mod Bounds
pub mod Overflow
pub mod Distinct
pub mod Wired
pub mod Reached
mod Tests
use canna.Prelude.{
  ℕ, ◌+◌, Bool, List, [], ◌∷◌, ◌++◌, Option, none, some, if◌then◌else◌, ltb, length, replicate,
}
use canna.Broker.{Frame}
use canna.Socket.Send.{◌>>=◌}

-- What stands behind the name of the broker in that of an endpoint.
pub data Port : Type 0 where
  at_localfe at_localbe at_cloud at_cloudbe at_state at_monitor : Port

abbrev pub suffix : Port → List ℕ
suffix at_localfe =
    b'-' ∷ b'l' ∷ b'o' ∷ b'c' ∷ b'a' ∷ b'l' ∷ b'f' ∷ b'e' ∷ b'.' ∷ b'i' ∷ b'p' ∷ b'c' ∷ []
suffix at_localbe =
    b'-' ∷ b'l' ∷ b'o' ∷ b'c' ∷ b'a' ∷ b'l' ∷ b'b' ∷ b'e' ∷ b'.' ∷ b'i' ∷ b'p' ∷ b'c' ∷ []
suffix at_cloud = b'-' ∷ b'c' ∷ b'l' ∷ b'o' ∷ b'u' ∷ b'd' ∷ b'.' ∷ b'i' ∷ b'p' ∷ b'c' ∷ []
suffix at_cloudbe =
    b'-' ∷ b'c' ∷ b'l' ∷ b'o' ∷ b'u' ∷ b'd' ∷ b'b' ∷ b'e' ∷ b'.' ∷ b'i' ∷ b'p' ∷ b'c' ∷ []
suffix at_state = b'-' ∷ b's' ∷ b't' ∷ b'a' ∷ b't' ∷ b'e' ∷ b'.' ∷ b'i' ∷ b'p' ∷ b'c' ∷ []
suffix at_monitor =
    b'-' ∷ b'm' ∷ b'o' ∷ b'n' ∷ b'i' ∷ b't' ∷ b'o' ∷ b'r' ∷ b'.' ∷ b'i' ∷ b'p' ∷ b'c' ∷ []

-- The text "ipc://%s" and the suffix.
unfoldable pub ipc_name : Frame → Port → Frame
ipc_name self port = b'i' ∷ b'p' ∷ b'c' ∷ b':' ∷ b'/' ∷ b'/' ∷ (self ++ suffix port)

-- `sprintf` into an array of 64 bytes, behind which it writes a 0; `none` where it writes past the
-- array.
unfoldable pub sprintf_ipc : Frame → Port → Option Frame
sprintf_ipc self port =
    if ltb 64 (length (ipc_name self port) + 1) then none else some (ipc_name self port)

-- The sockets of main, and those of the threads.
pub data Socket : Type 0 where
  localfe localbe cloudfe cloudbe statebe statefe monitor client worker pusher : Socket

pub data Call : Type 0 where
  binds connects : Socket → (endpoint : Frame) → Call
  identifies : Socket → (identity : Frame) → Call
  subscribes : Socket → (filter : Frame) → Call
  starts_worker starts_client : Call

unfoldable pub bind_ipc : Socket → Frame → Port → Option (List Call)
bind_ipc s self port = do name ← sprintf_ipc self port; some (binds s name ∷ [])

unfoldable pub connect_ipc : Socket → Frame → Port → Option (List Call)
connect_ipc s peer port = do name ← sprintf_ipc peer port; some (connects s name ∷ [])

-- The loop over the peers of the command line.
unfoldable pub connect_peers : Socket → List Frame → Port → Option (List Call)
connect_peers s [] port = some []
connect_peers s (peer ∷ peers) port = do
  first ← connect_ipc s peer port
  later ← connect_peers s peers port
  some (first ++ later)

-- Calls one after the other.
abbrev pub joined : List (List Call) → List Call
joined [] = []
joined (calls ∷ later) = calls ++ joined later

-- `main` of cluster.cpp up to its loop, for the arguments behind the program's name. The name of
-- `cloudbe` is printed, and not used.
unfoldable pub cluster_main : List Frame → Option (List Call)
cluster_main [] = some []
cluster_main (self ∷ peers) = do
  a ← bind_ipc localfe self at_localfe
  b ← bind_ipc localbe self at_localbe
  c ← bind_ipc cloudfe self at_cloud
  _ ← sprintf_ipc self at_cloudbe
  d ← connect_peers cloudbe peers at_cloud
  e ← bind_ipc statebe self at_state
  f ← connect_peers statefe peers at_state
  g ← bind_ipc monitor self at_monitor
  some (
      joined (
        a
        ∷ b
        ∷ (identifies cloudfe self ∷ [])
        ∷ c
        ∷ (identifies cloudbe self ∷ [])
        ∷ d
        ∷ e
        ∷ (subscribes statefe [] ∷ [])
        ∷ f
        ∷ g
        ∷ replicate 5 starts_worker
        ∷ replicate 10 starts_client
        ∷ []))

-- `client_task` and `worker_task` of cluster.cpp, up to their loops.
unfoldable pub cluster_client : Frame → Option (List Call)
cluster_client self = do
  a ← connect_ipc client self at_localfe
  b ← connect_ipc pusher self at_monitor
  some (a ++ b)

-- The thread of a worker is the same in both programs up to here.
unfoldable pub worker_start : Frame → Option (List Call)
worker_start self = connect_ipc worker self at_localbe

-- `cloud_id` of peering1.cpp.
abbrev pub cloud_id : Frame → Frame
cloud_id self = self ++ b'b' ∷ b'e' ∷ []

-- `main` of peering1.cpp up to its loop.
unfoldable pub peering1_main : List Frame → Option (List Call)
peering1_main [] = some []
peering1_main (self ∷ peers) = do
  a ← bind_ipc cloudfe self at_cloud
  b ← connect_peers cloudbe peers at_cloud
  c ← bind_ipc localfe self at_localfe
  d ← bind_ipc localbe self at_localbe
  some (
      joined (
        (identifies cloudfe self ∷ [])
        ∷ a
        ∷ (identifies cloudbe (cloud_id self) ∷ [])
        ∷ b
        ∷ c
        ∷ d
        ∷ replicate 3 starts_worker
        ∷ replicate 5 starts_client
        ∷ []))

unfoldable pub peering1_client : Frame → Option (List Call)
peering1_client self = connect_ipc client self at_localfe

-- `main` of peering.cpp up to its loop.
unfoldable pub peering_main : List Frame → Option (List Call)
peering_main [] = some []
peering_main (self ∷ peers) = do
  a ← bind_ipc statebe self at_state
  b ← connect_peers statefe peers at_state
  some (joined (a ∷ (subscribes statefe [] ∷ []) ∷ b ∷ []))
