-- ===== src/Ipc/Overflow.antt =====
-- Names that do not fit into their arrays.
use canna.Prelude.{
  ◌≤◌, ◌≢◌, ◌↔◌, refl, sym, ◌∙◌, inl, inr, List, ◌∷◌, none, arith, length, ltb, Bool-cases,
  Option-cases, ltb→lt, ltb→le,
}
use canna.Broker.{Frame}
use canna.Ipc.{
  at_localfe, at_localbe, at_cloud, at_cloudbe, at_state, at_monitor, localfe, localbe, cloudfe,
  cloudbe, statebe, statefe, bind_ipc, connect_peers, cluster_main, cluster_client, worker_start,
  client, worker, pusher, peering1_main, peering1_client, peering_main,
}
use canna.Ipc.Bounds.{
  sprintf_ipc-fits, bind_ipc-fits, bind_ipc-none, connect_ipc-fits, connect_peers-Short, Short,
  cluster_main-fits, peering1_main-fits, peering_main-fits,
}

-- Where main gets to its loop, the names are short.
pub cluster_main-Short :
    (self : Frame) (peers : List Frame)
    → cluster_main (self ∷ peers) ≢ none
    → (length self ≤ 45) × Short 47 peers
unfolding cluster_main
cluster_main-Short self peers h = elim (Bool-cases (ltb 45 (length self))) [
  | inl long ↦
      let e = bind_ipc-none localfe self at_localfe (omega (arith, ltb→lt 45 (length self) long)) in
      absurd (h (rw e refl))
  | inr short ↦
      let fits = ltb→le 45 (length self) short in
      let a = bind_ipc-fits localfe self at_localfe (omega (arith, fits)) in
      let b = bind_ipc-fits localbe self at_localbe (omega (arith, fits)) in
      let c = bind_ipc-fits cloudfe self at_cloud (omega (arith, fits)) in
      let d = sprintf_ipc-fits self at_cloudbe (omega (arith, fits)) in
      (fits, connect_peers-Short cloudbe peers at_cloud refl (λ e. h (rw (a, b, c, d, e) refl)))
]

pub peering1_main-Short :
    (self : Frame) (peers : List Frame)
    → peering1_main (self ∷ peers) ≢ none
    → (length self ≤ 45) × Short 47 peers
unfolding peering1_main
peering1_main-Short self peers h = elim (Option-cases (connect_peers cloudbe peers at_cloud)) [
  | inl e ↦ absurd (
      h (elim (Option-cases (bind_ipc cloudfe self at_cloud)) [
        | inl f ↦ rw f refl
        | inr (calls, f) ↦ rw (f, e) refl
      ]))
  | inr (calls, e) ↦ (
    elim (Bool-cases (ltb 45 (length self))) [
      | inl long ↦ absurd (
          h (elim (Option-cases (bind_ipc cloudfe self at_cloud)) [
            | inl f ↦ rw f refl
            | inr (more, f) ↦
                let g =
                  bind_ipc-none localfe self at_localfe
                    (omega (arith, ltb→lt 45 (length self) long)) in
                rw (f, e, g) refl
          ]))
      | inr short ↦ ltb→le 45 (length self) short
    ],
    connect_peers-Short cloudbe peers at_cloud refl (λ f. let g = sym f ∙ e in absurd cc),
  )
]

pub peering_main-Short :
    (self : Frame) (peers : List Frame)
    → peering_main (self ∷ peers) ≢ none
    → (length self ≤ 47) × Short 47 peers
unfolding peering_main
peering_main-Short self peers h = elim (Bool-cases (ltb 47 (length self))) [
  | inl long ↦
      let e = bind_ipc-none statebe self at_state (omega (arith, ltb→lt 47 (length self) long)) in
      absurd (h (rw e refl))
  | inr short ↦
      let fits = ltb→le 47 (length self) short in
      let a = bind_ipc-fits statebe self at_state (omega (arith, fits)) in
      (fits, connect_peers-Short statefe peers at_state refl (λ e. h (rw (a, e) refl)))
]

-- The threads of a broker whose name has at most 45 bytes print their names without writing past an
-- array.
pub threads-fit :
    (self : Frame)
    → length self ≤ 45
    → (cluster_client self ≢ none) × (peering1_client self ≢ none) × (worker_start self ≢ none)
unfolding cluster_client peering1_client worker_start
threads-fit self h =
    let a = connect_ipc-fits client self at_localfe (omega (arith, h)) in
    let b = connect_ipc-fits pusher self at_monitor (omega (arith, h)) in
    let c = connect_ipc-fits worker self at_localbe (omega (arith, h)) in
    (rw (a, b) (λ e. cc), rw a (λ e. cc), rw c (λ e. cc))

-- A broker of cluster.cpp or peering1.cpp prints the names of its endpoints without writing past an
-- array just where its own name has at most 45 bytes and those of its peers at most 47, and one of
-- peering.cpp just where all have at most 47.
pub mains-fit :
    (self : Frame) (peers : List Frame)
    → ((cluster_main (self ∷ peers) ≢ none) ↔ ((length self ≤ 45) × Short 47 peers))
      × ((peering1_main (self ∷ peers) ≢ none) ↔ ((length self ≤ 45) × Short 47 peers))
      × ((peering_main (self ∷ peers) ≢ none) ↔ ((length self ≤ 47) × Short 47 peers))
mains-fit self peers = (
  (cluster_main-Short self peers, λ (h, k) none_. let e = cluster_main-fits self peers h k in cc),
  (peering1_main-Short self peers, λ (h, k) none_. let e = peering1_main-fits self peers h k in cc),
  (peering_main-Short self peers, λ (h, k) none_. let e = peering_main-fits self peers h k in cc),
)
