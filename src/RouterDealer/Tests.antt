-- ===== src/RouterDealer/Tests.antt =====
-- The broker and its workers at concrete inputs.
use canna.Prelude.{ℕ, ◌≡◌, ◌≤◌, ◌⊎◌, refl, true, false, List, [], ◌∷◌, replicate, arith}
use canna.RouterDealer.{
  Worker, working, ready, done, Farm, on_workload, broker_round, Step, says, hears, started, Reach,
  begins, next, Late, stays, goes,
}
use canna.RouterDealer.Ends.{AllDone, Late-ends}

abbrev others : List Worker
others = replicate 9 (working 0)

-- The first worker has been heard once in time, and is ready again.
abbrev busy : Farm
busy = record { workers = ready 1 ∷ others; worker_fired = 0; ended = false }

-- The first worker has been fired.
abbrev one_fired : Farm
one_fired = record { workers = done 1 ∷ others; worker_fired = 1; ended = false }

busy-Reach : Reach 5000 busy
unfolding started broker_round on_workload
busy-Reach =
    next 20 (next 10 (next 0 begins (says [] others 0 refl)) (hears [] others 0 refl refl))
      (says [] others 1 refl)

fires_test : broker_round 5000 5000 [] 1 others busy ≡ one_fired
unfolding broker_round on_workload
fires_test = refl

fires-Late : Late 5000 busy 1 one_fired
unfolding broker_round on_workload
fires-Late = goes 5000 (omega arith) stays (hears [] others 1 refl refl)

Late-ends_example :
    (1 ≤ 20)
    × (((one_fired.ended ≡ true) × AllDone one_fired.workers)
        ⊎ ((now : ℕ) → (h : Farm) × Step 5000 now one_fired h))
Late-ends_example = Late-ends busy-Reach fires-Late
