-- ===== src/Ipc/Reached.antt =====
-- What the sockets of a broker reach, for brokers of the three programs.
use mathlib.Core.List.{Memᴰ}
use mathlib.Core.List.Memᴰ.{append_left, append_right}
use canna.Prelude.{
  ℕ, ◌≡◌, ◌≢◌, refl, sym, ap, List, [], ◌∷◌, some, some_inj, zero, suc, subst, get_elem?,
}
use canna.Broker.{Frame}
use canna.Ipc.{
  Port, at_cloud, at_state, ipc_name, Socket, cloudfe, cloudbe, statebe, statefe, Call, binds,
  connects, identifies, joined,
}
use canna.Ipc.Bounds.{connections, cluster_plan, peering1_plan, peering_plan}
use canna.Ipc.Wired.{Program, cluster, peering1, peering, main, plan, main-plan}

-- A call of a part is a call of the whole.
joined-Mem :
    (parts : List (List Call)) (i : ℕ) {calls : List Call} {c : Call}
    → get_elem? parts i ≡ some calls
    → Memᴰ c calls
    → Memᴰ c (joined parts)
joined-Mem [] i e m = absurd cc
joined-Mem (first ∷ later) zero {c = c} e m =
    append_left (joined later) (subst (λ (l : List Call). Memᴰ c l) (sym (some_inj e)) m)
joined-Mem (first ∷ later) (suc i) e m = append_right first (joined-Mem later i e m)

connections-Mem :
    (s : Socket) (peers : List Frame) (p : Port) {peer : Frame}
    → Memᴰ peer peers
    → Memᴰ (connects s (ipc_name peer p)) (connections s peers p)
connections-Mem s [] p m = elim m [ ]
connections-Mem s (first ∷ peers) p (Memᴰ.head e) =
    Memᴰ.head (ap (λ (l : Frame). connects s (ipc_name l p)) e)
connections-Mem s (first ∷ peers) p (Memᴰ.tail m) = Memᴰ.tail (connections-Mem s peers p m)

-- The sockets that a program has at a port: the one that it connects to its peers, and its own.
cloud-Mem :
    (a : Program) (self : Frame) (peers : List Frame) {peer : Frame}
    → a ≢ peering
    → Memᴰ peer peers
    → Memᴰ (connects cloudbe (ipc_name peer at_cloud)) (joined (plan a self peers))
cloud-Mem cluster self peers h m =
    joined-Mem (cluster_plan self peers) 5 refl (connections-Mem cloudbe peers at_cloud m)
cloud-Mem peering1 self peers h m =
    joined-Mem (peering1_plan self peers) 3 refl (connections-Mem cloudbe peers at_cloud m)
cloud-Mem peering self peers h m = absurd (h refl)

cloudfe-Mem :
    (b : Program) (self : Frame) (peers : List Frame)
    → b ≢ peering
    → Memᴰ (identifies cloudfe self) (joined (plan b self peers))
      × Memᴰ (binds cloudfe (ipc_name self at_cloud)) (joined (plan b self peers))
cloudfe-Mem cluster self peers h = (
  joined-Mem (cluster_plan self peers) 2 refl (Memᴰ.head refl),
  joined-Mem (cluster_plan self peers) 3 refl (Memᴰ.head refl),
)
cloudfe-Mem peering1 self peers h = (
  joined-Mem (peering1_plan self peers) 0 refl (Memᴰ.head refl),
  joined-Mem (peering1_plan self peers) 1 refl (Memᴰ.head refl),
)
cloudfe-Mem peering self peers h = absurd (h refl)

state-Mem :
    (a : Program) (self : Frame) (peers : List Frame) {peer : Frame}
    → a ≢ peering1
    → Memᴰ peer peers
    → Memᴰ (connects statefe (ipc_name peer at_state)) (joined (plan a self peers))
state-Mem cluster self peers h m =
    joined-Mem (cluster_plan self peers) 8 refl (connections-Mem statefe peers at_state m)
state-Mem peering self peers h m =
    joined-Mem (peering_plan self peers) 2 refl (connections-Mem statefe peers at_state m)
state-Mem peering1 self peers h m = absurd (h refl)

statebe-Mem :
    (b : Program) (self : Frame) (peers : List Frame)
    → b ≢ peering1
    → Memᴰ (binds statebe (ipc_name self at_state)) (joined (plan b self peers))
statebe-Mem cluster self peers h = joined-Mem (cluster_plan self peers) 6 refl (Memᴰ.head refl)
statebe-Mem peering self peers h = joined-Mem (peering_plan self peers) 0 refl (Memᴰ.head refl)
statebe-Mem peering1 self peers h = absurd (h refl)

-- The cloud of a broker whose program is cluster.cpp or peering1.cpp: `cloudbe` is connected to each
-- peer that runs one of these, at the endpoint that the peer binds its `cloudfe` to, and that socket
-- has the name of the peer as its identity.
pub main-reaches_cloud :
    (a b : Program) (self other : Frame) (peers others : List Frame) {calls calls' : List Call}
    → a ≢ peering
    → b ≢ peering
    → main a (self ∷ peers) ≡ some calls
    → main b (other ∷ others) ≡ some calls'
    → Memᴰ other peers
    → Memᴰ (connects cloudbe (ipc_name other at_cloud)) calls
      × Memᴰ (identifies cloudfe other) calls'
      × Memᴰ (binds cloudfe (ipc_name other at_cloud)) calls'
main-reaches_cloud a b self other peers others h k e f m =
    let (identified, bound) = cloudfe-Mem b other others k in
    rw (main-plan a self peers e, main-plan b other others f)
      (cloud-Mem a self peers h m, identified, bound)

-- As for the states of cluster.cpp and peering.cpp.
pub main-reaches_state :
    (a b : Program) (self other : Frame) (peers others : List Frame) {calls calls' : List Call}
    → a ≢ peering1
    → b ≢ peering1
    → main a (self ∷ peers) ≡ some calls
    → main b (other ∷ others) ≡ some calls'
    → Memᴰ other peers
    → Memᴰ (connects statefe (ipc_name other at_state)) calls
      × Memᴰ (binds statebe (ipc_name other at_state)) calls'
main-reaches_state a b self other peers others h k e f m =
    rw (main-plan a self peers e, main-plan b other others f)
      (state-Mem a self peers h m, statebe-Mem b other others k)
