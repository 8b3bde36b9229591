-- ===== src/Random/Tests.antt =====
-- The generator at concrete seeds.
use canna.Prelude.{◌+◌, ◌*◌, ◌/◌, ◌%◌, ◌^◌, ◌≤◌, ◌<◌, ◌≡◌, refl, arith}
use canna.Random.{step, mix, random, random_below, random_between}
use canna.Random.Bounds.{random_lem, random_below-lt, random_between_bounds, random_empty}

random_from_zero : (random 0).1 ≡ 1012484
unfolding random step mix
random_from_zero = refl

random_lem_test :
    let (next, result) = random 7 in
    (next ≡ step (step (step 7)))
    × (result
        ≡ step 7 / 65536 % 2048 * 1048576
          + step (step 7) / 65536 % 1024 * 1024
          + step (step (step 7)) / 65536 % 1024)
    × (result < 2 ^ 31)
random_lem_test = random_lem 7

random_below-lt_test : (random_below 7 1024).1 < 1024
random_below-lt_test = random_below-lt 7 1024 (omega arith)

random_between_bounds_test : (5 ≤ (random_between 7 5 9).1) × ((random_between 7 5 9).1 < 9)
random_between_bounds_test = random_between_bounds 7 5 9 (omega arith) (omega arith)

random_empty_test : (random_below 7 0 ≡ (7, 0)) × (random_between 7 5 5 ≡ (7, 5))
random_empty_test = random_empty 7 5
