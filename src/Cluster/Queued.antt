-- ===== src/Cluster/Queued.antt =====
-- The broker queues only every second worker.
use canna.Prelude.{
  ℕ, ◌+◌, ◌≡◌, ◌≤◌, refl, ap, ◌∙◌, inl, inr, List, [], ◌∷◌, ◌++◌, some, arith, length,
  if◌then◌else◌, Bool-cases, List-cases, append_assoc,
}
use canna.Broker.{Frame}
use canna.Cluster.{
  FromWorker, parts, Cluster, Polled, dumped, hear_worker, hear_cloud, hear_backends, hear_monitor,
  cluster_round, cluster_loop,
}

-- The senders of every second message.
abbrev pub seconds : List FromWorker → List Frame
seconds [] = []
seconds (m ∷ []) = []
seconds (m ∷ n ∷ rest) = n.identity ∷ seconds rest

-- The messages that a round takes from each socket.
abbrev pub workers_taken : Polled → ℕ
workers_taken p = if p.on_localbe then 2 else 0

abbrev pub clouds_taken : Polled → ℕ
clouds_taken p = if p.on_localbe then 0 else (if p.on_cloudbe then 1 else 0)

abbrev pub statuses_taken : Polled → ℕ
statuses_taken p = if p.on_monitor then 1 else 0

abbrev pub total : (Polled → ℕ) → List Polled → ℕ
total f [] = 0
total f (p ∷ rest) = f p + total f rest

-- So many messages have been taken, and so many sent, between two states, and the queue has grown
-- by the senders of every second message of the workers.
pub record Hears (workers clouds statuses rounds : ℕ) (c d : Cluster) : Type 0 where
  pub local : length d.localbe + workers ≡ length c.localbe
  pub cloud : length d.cloudbe + clouds ≡ length c.cloudbe
  pub status : length d.monitor + statuses ≡ length c.monitor
  pub sent : d.clouds ≡ c.clouds + rounds
  pub queued : d.worker_queue ++ seconds d.localbe ≡ c.worker_queue ++ seconds c.localbe

hear_worker-Hears :
    (c : Cluster)
    → 2 ≤ length c.localbe
    → (d : Cluster) × (hear_worker c ≡ some d) × Hears 2 0 0 0 c d
unfolding hear_worker dumped
hear_worker-Hears c enough = elim (List-cases c.localbe) [
  | inl e ↦ absurd (let n = ap length e in omega (arith, n, enough))
  | inr (first, rest, e) ↦ elim (List-cases rest) [
    | inl f ↦ absurd (let n = ap length (e ∙ ap (λ l. first ∷ l) f) in omega (arith, n, enough))
    | inr (m, later, f) ↦
        let both = e ∙ ap (λ l. first ∷ l) f in
        let n = ap length both in
        (
          record (dumped (parts first) c) {
            localbe = later;
            worker_queue = c.worker_queue ++ m.identity ∷ [];
          },
          rw both refl,
          record {
            local = omega (arith, n);
            cloud = omega arith;
            status = omega arith;
            sent = omega arith;
            queued = rw both (append_assoc c.worker_queue (m.identity ∷ []) (seconds later));
          },
        )
  ]
]

hear_cloud-Hears :
    (c : Cluster)
    → 1 ≤ length c.cloudbe
    → (d : Cluster) × (hear_cloud c ≡ some d) × Hears 0 1 0 0 c d
unfolding hear_cloud dumped
hear_cloud-Hears c enough = elim (List-cases c.cloudbe) [
  | inl e ↦ absurd (let n = ap length e in omega (arith, n, enough))
  | inr (first, rest, e) ↦ (
    record (dumped first c) { cloudbe = rest },
    rw e refl,
    record {
      local = omega arith;
      cloud = let n = ap length e in omega (arith, n);
      status = omega arith;
      sent = omega arith;
      queued = refl;
    },
  )
]

Hears-self : (c : Cluster) → Hears 0 0 0 0 c c
Hears-self c = record {
  local = omega arith;
  cloud = omega arith;
  status = omega arith;
  sent = omega arith;
  queued = refl;
}

hear_backends-Hears :
    (p : Polled) (c : Cluster)
    → workers_taken p ≤ length c.localbe
    → clouds_taken p ≤ length c.cloudbe
    → (d : Cluster) × (hear_backends p c ≡ some d)
      × Hears (workers_taken p) (clouds_taken p) 0 0 c d
unfolding hear_backends
hear_backends-Hears p c few few_clouds = elim (Bool-cases p.on_localbe) [
  | inl e ↦ rw e (hear_worker-Hears c (rw e at few))
  | inr e ↦ elim (Bool-cases p.on_cloudbe) [
    | inl f ↦ rw (e, f) (hear_cloud-Hears c (rw (e, f) at few_clouds))
    | inr f ↦ rw (e, f) (c, refl, Hears-self c)
  ]
]

hear_monitor-Hears :
    (p : Polled) (c : Cluster)
    → statuses_taken p ≤ length c.monitor
    → (d : Cluster) × (hear_monitor p c ≡ some d) × Hears 0 0 (statuses_taken p) 0 c d
unfolding hear_monitor
hear_monitor-Hears p c few = elim (Bool-cases p.on_monitor) [
  | inr e ↦ rw e (c, refl, Hears-self c)
  | inl e ↦ elim (List-cases c.monitor) [
    | inl f ↦ absurd (let n = ap length f in let h = rw e at few in omega (arith, n, h))
    | inr (status, rest, f) ↦ (
      record c { monitor = rest; out = c.out ++ status ++ 10 ∷ [] },
      rw (e, f) refl,
      rw e (record {
        local = omega arith;
        cloud = omega arith;
        status = let n = ap length f in omega (arith, n);
        sent = omega arith;
        queued = refl;
      }),
    )
  ]
]

-- What a run of the loop takes.
abbrev pub HearsAll : List Polled → Cluster → Cluster → Type 0
HearsAll polls c d =
    Hears (total workers_taken polls) (total clouds_taken polls) (total statuses_taken polls)
      (length polls) c d

cluster_round-Hears :
    (p : Polled) (c : Cluster)
    → workers_taken p ≤ length c.localbe
    → clouds_taken p ≤ length c.cloudbe
    → statuses_taken p ≤ length c.monitor
    → (d : Cluster) × (cluster_round p c ≡ some d)
      × Hears (workers_taken p) (clouds_taken p) (statuses_taken p) 1 c d
unfolding cluster_round
cluster_round-Hears p c few few_clouds few_statuses =
    let (d, made, a) = hear_backends-Hears p c few few_clouds in
    let (e, then_, b) = hear_monitor-Hears p d (omega (arith, a.status, few_statuses)) in
    (
      record e { clouds = e.clouds + 1 },
      rw (cluster_round, made, then_) refl,
      record {
        local = omega (arith, a.local, b.local);
        cloud = omega (arith, a.cloud, b.cloud);
        status = omega (arith, a.status, b.status);
        sent = omega (arith, a.sent, b.sent);
        queued = b.queued ∙ a.queued;
      },
    )

-- Where enough messages come, two of the workers for each report of `localbe`, one of the cloud
-- for each other report of `cloudbe` and one status for each report of `monitor`, the loop does not
-- wait for ever. It takes just these messages, sends as many to the cloud as it makes rounds, and
-- the queue grows by the senders of every second message of the workers only, in their order.
pub cluster_loop-Hears :
    (polls : List Polled) (c : Cluster)
    → total workers_taken polls ≤ length c.localbe
    → total clouds_taken polls ≤ length c.cloudbe
    → total statuses_taken polls ≤ length c.monitor
    → (d : Cluster) × (cluster_loop polls c ≡ some d) × HearsAll polls c d
unfolding cluster_loop
cluster_loop-Hears [] c few few_clouds few_statuses = (c, refl, Hears-self c)
cluster_loop-Hears (p ∷ rest) c few few_clouds few_statuses =
    let (d, made, a) =
      cluster_round-Hears p c (omega (arith, few)) (omega (arith, few_clouds))
        (omega (arith, few_statuses)) in
    let (e, later, b) =
      cluster_loop-Hears rest d (omega (arith, few, a.local)) (omega (arith, few_clouds, a.cloud))
        (omega (arith, few_statuses, a.status)) in
    (
      e,
      rw (made, cluster_loop) later,
      record {
        local = omega (arith, a.local, b.local);
        cloud = omega (arith, a.cloud, b.cloud);
        status = omega (arith, a.status, b.status);
        sent = omega (arith, a.sent, b.sent);
        queued = b.queued ∙ a.queued;
      },
    )
