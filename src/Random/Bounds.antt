-- ===== src/Random/Bounds.antt =====
-- The ranges of the generator's results.
use canna.Prelude.{ℕ, ◌+◌, ◌-◌, ◌*◌, ◌/◌, ◌%◌, ◌^◌, ◌≤◌, ◌<◌, ◌≡◌, ◌≢◌, refl, arith}
use canna.Prelude.Bits.{xor_shifted}
use canna.Random.{step, mix, random, random_below, random_between}

step-lt : (seed : ℕ) → step seed < 2 ^ 32
unfolding step
step-lt seed = omega arith

-- The ten new bits stand below the old ones, so the exclusive or is a sum.
pub mix-sum :
    (result next : ℕ) → result < 2 ^ 22 → mix result next ≡ result * 1024 + next / 2 ^ 16 % 1024
unfolding mix
mix-sum result next h =
    let fits : result * 2 ^ 10 % 2 ^ 32 ≡ result * 2 ^ 10 = omega arith in
    rw fits (xor_shifted 10 result (next / 2 ^ 16 % 1024) (omega arith))

-- A result is put together from eleven, ten and ten bits of three steps of the state, with nothing
-- lost, so it is below 2 ^ 31; the new seed is the third state.
pub random_lem :
    (seed : ℕ)
    → let (next, result) = random seed in
      (next ≡ step (step (step seed)))
      × (result
          ≡ step seed / 65536 % 2048 * 1048576
            + step (step seed) / 65536 % 1024 * 1024
            + step (step (step seed)) / 65536 % 1024)
      × (result < 2 ^ 31)
unfolding random
random_lem seed =
    let first = step seed / 65536 % 2048 in
    let second = step (step seed) in
    let third = step second in
    let a = mix-sum first second (omega arith) in
    let b = mix-sum (mix first second) third (omega arith) in (refl, omega arith, omega arith)

-- `Random(range)` is below a range that is not 0.
pub random_below-lt : (seed range : ℕ) → range ≢ 0 → (random_below seed range).1 < range
unfolding random_below
random_below-lt seed range h = ground arith

-- `Random(min, max)` is in [min, max) where min is below max.
pub random_between_bounds :
    (seed low high : ℕ)
    → high < 2 ^ 32
    → low < high
    → (low ≤ (random_between seed low high).1) × ((random_between seed low high).1 < high)
unfolding random_between
random_between_bounds seed low high h p =
    let span : (high + 2 ^ 32 - low) % 2 ^ 32 ≡ high - low = omega arith in
    let below = random_below-lt seed ((high + 2 ^ 32 - low) % 2 ^ 32) (omega arith) in
    ground (arith, span, below)

-- With an empty range the results are 0, outside of [0, range - 1], and max, outside of
-- [min, max - 1], and the seed does not move.
pub random_empty :
    (seed low : ℕ) → (random_below seed 0 ≡ (seed, 0)) × (random_between seed low low ≡ (seed, low))
unfolding random_between random_below
random_empty seed low = (refl, ground arith)
