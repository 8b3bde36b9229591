-- ===== src/Ipc/Bounds.antt =====
-- The arrays that the names of the endpoints are printed into.
use canna.Prelude.{
  ℕ, ◌+◌, ◌≤◌, ◌<◌, ◌≡◌, ◌≢◌, refl, inl, inr, List, [], ◌∷◌, some, none, arith, length,
  length-append, ltb, Bool-cases, ltb→lt, ltb→le, replicate,
}
use canna.Broker.{Frame}
use canna.Ipc.{
  Port, at_localfe, at_localbe, at_cloud, at_cloudbe, at_state, at_monitor, suffix, ipc_name,
  sprintf_ipc, Socket, localfe, localbe, cloudfe, cloudbe, statebe, statefe, monitor, Call, binds,
  connects, bind_ipc, connect_ipc, connect_peers, cluster_main, joined, peering1_main, peering_main,
  identifies, subscribes, starts_worker, starts_client, cloud_id,
}

pub sprintf_ipc-fits :
    (self : Frame) (port : Port)
    → length self + length (suffix port) ≤ 57
    → sprintf_ipc self port ≡ some (ipc_name self port)
unfolding sprintf_ipc ipc_name
sprintf_ipc-fits self port h = ground (arith, length-append self (suffix port))

sprintf_ipc-none :
    (self : Frame) (port : Port)
    → 57 < length self + length (suffix port)
    → sprintf_ipc self port ≡ none
unfolding sprintf_ipc ipc_name
sprintf_ipc-none self port h = ground (arith, length-append self (suffix port))

pub bind_ipc-fits :
    (s : Socket) (self : Frame) (port : Port)
    → length self + length (suffix port) ≤ 57
    → bind_ipc s self port ≡ some (binds s (ipc_name self port) ∷ [])
unfolding bind_ipc
bind_ipc-fits s self port h = rw (sprintf_ipc-fits self port h) refl

pub bind_ipc-none :
    (s : Socket) (self : Frame) (port : Port)
    → 57 < length self + length (suffix port)
    → bind_ipc s self port ≡ none
unfolding bind_ipc
bind_ipc-none s self port h = rw (sprintf_ipc-none self port h) refl

pub connect_ipc-fits :
    (s : Socket) (peer : Frame) (port : Port)
    → length peer + length (suffix port) ≤ 57
    → connect_ipc s peer port ≡ some (connects s (ipc_name peer port) ∷ [])
unfolding connect_ipc
connect_ipc-fits s peer port h = rw (sprintf_ipc-fits peer port h) refl

connect_ipc-none :
    (s : Socket) (peer : Frame) (port : Port)
    → 57 < length peer + length (suffix port)
    → connect_ipc s peer port ≡ none
unfolding connect_ipc
connect_ipc-none s peer port h = rw (sprintf_ipc-none peer port h) refl

-- Names of at most so many bytes.
abbrev pub Short : ℕ → List Frame → Type 0
Short n [] = Unit
Short n (peer ∷ peers) = (length peer ≤ n) × Short n peers

abbrev pub connections : Socket → List Frame → Port → List Call
connections s [] port = []
connections s (peer ∷ peers) port = connects s (ipc_name peer port) ∷ connections s peers port

pub connect_peers-fits :
    (s : Socket) (peers : List Frame) (port : Port)
    → length (suffix port) ≡ 10
    → Short 47 peers
    → connect_peers s peers port ≡ some (connections s peers port)
unfolding connect_peers
connect_peers-fits s [] port h k = refl
connect_peers-fits s (peer ∷ peers) port h (short, k) =
    rw (connect_ipc-fits s peer port (omega (arith, h, short)), connect_peers-fits s peers port h k)
      refl

pub connect_peers-Short :
    (s : Socket) (peers : List Frame) (port : Port)
    → length (suffix port) ≡ 10
    → connect_peers s peers port ≢ none
    → Short 47 peers
unfolding connect_peers
connect_peers-Short s [] port h k = tt
connect_peers-Short s (peer ∷ peers) port h k = elim (Bool-cases (ltb 47 (length peer))) [
  | inl long ↦
      let e = connect_ipc-none s peer port (omega (arith, ltb→lt 47 (length peer) long, h)) in
      absurd (k (rw e refl))
  | inr short ↦
      let fits = ltb→le 47 (length peer) short in
      let e = connect_ipc-fits s peer port (omega (arith, fits, h)) in
      (fits, connect_peers-Short s peers port h (λ none_. k (rw (e, none_) refl)))
]

-- What cluster.cpp calls where all names fit, in parts.
abbrev pub cluster_plan : Frame → List Frame → List (List Call)
cluster_plan self peers =
    (binds localfe (ipc_name self at_localfe) ∷ [])
    ∷ (binds localbe (ipc_name self at_localbe) ∷ [])
    ∷ (identifies cloudfe self ∷ [])
    ∷ (binds cloudfe (ipc_name self at_cloud) ∷ [])
    ∷ (identifies cloudbe self ∷ [])
    ∷ connections cloudbe peers at_cloud
    ∷ (binds statebe (ipc_name self at_state) ∷ [])
    ∷ (subscribes statefe [] ∷ [])
    ∷ connections statefe peers at_state
    ∷ (binds monitor (ipc_name self at_monitor) ∷ [])
    ∷ replicate 5 starts_worker
    ∷ replicate 10 starts_client
    ∷ []

-- As peering1.cpp and peering.cpp call.
abbrev pub peering1_plan : Frame → List Frame → List (List Call)
peering1_plan self peers =
    (identifies cloudfe self ∷ [])
    ∷ (binds cloudfe (ipc_name self at_cloud) ∷ [])
    ∷ (identifies cloudbe (cloud_id self) ∷ [])
    ∷ connections cloudbe peers at_cloud
    ∷ (binds localfe (ipc_name self at_localfe) ∷ [])
    ∷ (binds localbe (ipc_name self at_localbe) ∷ [])
    ∷ replicate 3 starts_worker
    ∷ replicate 5 starts_client
    ∷ []

abbrev pub peering_plan : Frame → List Frame → List (List Call)
peering_plan self peers =
    (binds statebe (ipc_name self at_state) ∷ [])
    ∷ (subscribes statefe [] ∷ [])
    ∷ connections statefe peers at_state
    ∷ []

pub cluster_main-fits :
    (self : Frame) (peers : List Frame)
    → length self ≤ 45
    → Short 47 peers
    → cluster_main (self ∷ peers) ≡ some (joined (cluster_plan self peers))
unfolding cluster_main
cluster_main-fits self peers h k =
    rw
      (
        bind_ipc-fits localfe self at_localfe (omega (arith, h)),
        bind_ipc-fits localbe self at_localbe (omega (arith, h)),
        bind_ipc-fits cloudfe self at_cloud (omega (arith, h)),
        sprintf_ipc-fits self at_cloudbe (omega (arith, h)),
        connect_peers-fits cloudbe peers at_cloud refl k,
        bind_ipc-fits statebe self at_state (omega (arith, h)),
        connect_peers-fits statefe peers at_state refl k,
        bind_ipc-fits monitor self at_monitor (omega (arith, h)),
      )
      refl

pub peering1_main-fits :
    (self : Frame) (peers : List Frame)
    → length self ≤ 45
    → Short 47 peers
    → peering1_main (self ∷ peers) ≡ some (joined (peering1_plan self peers))
unfolding peering1_main
peering1_main-fits self peers h k =
    rw
      (
        bind_ipc-fits cloudfe self at_cloud (omega (arith, h)),
        connect_peers-fits cloudbe peers at_cloud refl k,
        bind_ipc-fits localfe self at_localfe (omega (arith, h)),
        bind_ipc-fits localbe self at_localbe (omega (arith, h)),
      )
      refl

pub peering_main-fits :
    (self : Frame) (peers : List Frame)
    → length self ≤ 47
    → Short 47 peers
    → peering_main (self ∷ peers) ≡ some (joined (peering_plan self peers))
unfolding peering_main
peering_main-fits self peers h k =
    rw
      (
        bind_ipc-fits statebe self at_state (omega (arith, h)),
        connect_peers-fits statefe peers at_state refl k,
      )
      refl
