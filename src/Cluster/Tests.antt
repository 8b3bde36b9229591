-- ===== src/Cluster/Tests.antt =====
-- The cluster broker at concrete inputs.
use canna.Prelude.{ℕ, ◌≡◌, true, false, [], ◌∷◌, none, some, arith}
use canna.Broker.{ready}
use canna.Cluster.{FromWorker, Cluster, Polled, cluster_loop}
use canna.Cluster.Hangs.{cluster_loop-hangs}
use canna.Cluster.Queued.{HearsAll, cluster_loop-Hears}

abbrev hello : ℕ → FromWorker
hello n = record { identity = n ∷ []; text = ready }

-- Five workers are ready, and a client has a status.
abbrev five : Cluster
five = record {
  localbe = hello 1 ∷ hello 2 ∷ hello 3 ∷ hello 4 ∷ hello 5 ∷ [];
  cloudbe = [];
  monitor = (b'o' ∷ []) ∷ [];
  worker_queue = [];
  clouds = 0;
  hex = false;
  out = [];
}

abbrev hears_worker : Polled
hears_worker = record { on_localbe = true; on_cloudbe = false; on_monitor = false }

abbrev hears_both : Polled
hears_both = record { on_localbe = true; on_cloudbe = false; on_monitor = true }

cluster_loop-Hears_example :
    (d : Cluster) × (cluster_loop (hears_worker ∷ hears_both ∷ []) five ≡ some d)
    × HearsAll (hears_worker ∷ hears_both ∷ []) five d
cluster_loop-Hears_example =
    cluster_loop-Hears (hears_worker ∷ hears_both ∷ []) five (omega arith) (omega arith)
      (omega arith)

-- Three reports of `localbe`.
cluster_loop-hangs_test : cluster_loop (hears_worker ∷ hears_both ∷ hears_worker ∷ []) five ≡ none
cluster_loop-hangs_test =
    cluster_loop-hangs (hears_worker ∷ hears_both ∷ hears_worker ∷ []) five (omega arith)
