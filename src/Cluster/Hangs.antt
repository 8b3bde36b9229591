-- ===== src/Cluster/Hangs.antt =====
-- example/cluster.cpp: the messages of workers that the rounds of the loop take.
use canna.Prelude.{
  ℕ, ◌+◌, ◌<◌, ◌≡◌, refl, inl, inr, true, List, [], ◌∷◌, Option, none, some, arith, length,
  Bool-cases, Option-cases, subst,
}
use canna.Cluster.{
  FromWorker, Cluster, Polled, dumped, hear_worker, hear_cloud, hear_backends, hear_monitor,
  cluster_round, cluster_loop,
}
use canna.Cluster.Queued.{workers_taken, total}

-- So many messages of workers are gone, where the code does not wait.
abbrev Took : ℕ → Cluster → Option Cluster → Type 0
Took n c none = Unit
Took n c (some d) = length d.localbe + n ≡ length c.localbe

hear_worker-Took :
    (localbe : List FromWorker) (c : Cluster) → c.localbe ≡ localbe → Took 2 c (hear_worker c)
unfolding hear_worker dumped
hear_worker-Took [] c e = rw e tt
hear_worker-Took (m ∷ []) c e = rw e tt
hear_worker-Took (m ∷ n ∷ rest) c e = rw e (omega arith)

hear_cloud-Took :
    (cloudbe : List (List (List ℕ))) (c : Cluster) → c.cloudbe ≡ cloudbe → Took 0 c (hear_cloud c)
unfolding hear_cloud dumped
hear_cloud-Took [] c e = rw e tt
hear_cloud-Took (m ∷ rest) c e = rw e (omega arith)

hear_backends-Took : (p : Polled) (c : Cluster) → Took (workers_taken p) c (hear_backends p c)
unfolding hear_backends
hear_backends-Took p c = elim (Bool-cases p.on_localbe) [
  | inl e ↦ rw e (hear_worker-Took c.localbe c refl)
  | inr e ↦ elim (Bool-cases p.on_cloudbe) [
    | inl f ↦ rw (e, f) (hear_cloud-Took c.cloudbe c refl)
    | inr f ↦ rw (e, f) (omega arith)
  ]
]

hear_monitor-Took :
    (p : Polled) (c : Cluster) (monitor : List (List ℕ))
    → c.monitor ≡ monitor
    → Took 0 c (hear_monitor p c)
unfolding hear_monitor
hear_monitor-Took p c monitor k = elim (Bool-cases p.on_monitor) [
  | inr e ↦ rw e (omega arith)
  | inl e ↦ reported monitor k e
]
  where
    reported :
        (monitor : List (List ℕ))
        → c.monitor ≡ monitor
        → p.on_monitor ≡ true
        → Took 0 c (hear_monitor p c)
    reported [] k e = rw (e, k) tt
    reported (status ∷ rest) k e = rw (e, k) (omega arith)

cluster_round-Took : (p : Polled) (c : Cluster) → Took (workers_taken p) c (cluster_round p c)
unfolding cluster_round
cluster_round-Took p c = joined (hear_backends p c) (hear_backends-Took p c)
  where
    joined :
        (m : Option Cluster)
        → Took (workers_taken p) c m
        → Took (workers_taken p) c (elim m [
          | none ↦ none
          | some d ↦ elim (hear_monitor p d) [
            | none ↦ none
            | some e ↦ some (record e { clouds = e.clouds + 1 })
          ]
        ])
    joined none h = tt
    joined (some d) h = counted (hear_monitor p d) (hear_monitor-Took p d d.monitor refl)
      where
        counted :
            (m : Option Cluster)
            → Took 0 d m
            → Took
                (workers_taken p)
                c
                (elim m [ none ↦ none | some e ↦ some (record e { clouds = e.clouds + 1 }) ])
        counted none k = tt
        counted (some e) k = omega (arith, h, k)

-- Each round that finds `localbe` readable takes two messages of workers: where there are fewer
-- than that in all, as there are with five workers, each of which sends one message only, and three
-- such rounds, the loop waits for ever, whatever else the polls report.
pub cluster_loop-hangs :
    (polled : List Polled) (c : Cluster)
    → length c.localbe < total workers_taken polled
    → cluster_loop polled c ≡ none
unfolding cluster_loop
cluster_loop-hangs [] c few = absurd (omega (arith, few))
cluster_loop-hangs (p ∷ rest) c few = elim (Option-cases (cluster_round p c)) [
  | inl e ↦ rw (e, cluster_loop) refl
  | inr (d, e) ↦
      let took : length d.localbe + workers_taken p ≡ length c.localbe =
        subst (Took (workers_taken p) c) e (cluster_round-Took p c) in
      rw (e, cluster_loop) (cluster_loop-hangs rest d (omega (arith, took, few)))
]
