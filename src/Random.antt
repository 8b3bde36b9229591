-- ===== src/Random.antt =====
-- core/canna_random.h: the linear congruential generator, in `unsigned int` of 32 bits.
pub mod Bounds
mod Tests
use Prim.Native.Nat.{bit_xor}
use canna.Prelude.{ℕ, ◌+◌, ◌-◌, ◌*◌, ◌/◌, ◌%◌, ◌^◌, if◌then◌else◌, ◌==◌}

-- One step of the state: `next *= 1103515245; next += 12345`.
unfoldable pub step : ℕ → ℕ
step next = (next * 1103515245 % 2 ^ 32 + 12345) % 2 ^ 32

-- `result <<= 10; result ^= (next >> 16) % 1024`
unfoldable pub mix : ℕ → ℕ → ℕ
mix result next = bit_xor (result * 2 ^ 10 % 2 ^ 32) (next / 2 ^ 16 % 1024)

-- `Random()`: the new seed and the result.
unfoldable pub random : ℕ → ℕ × ℕ
random seed =
    let first = step seed in
    let second = step first in
    let third = step second in (third, mix (mix (first / 2 ^ 16 % 2048) second) third)

-- `Random(range)`
unfoldable pub random_below : ℕ → ℕ → ℕ × ℕ
random_below seed range =
    if range == 0 then (seed, 0) else ((random seed).0, (random seed).1 % range)

-- `Random(min, max)`, where `max - min` and the sum wrap around.
unfoldable pub random_between : ℕ → ℕ → ℕ → ℕ × ℕ
random_between seed low high = if low == high then (seed, high) else (
  (random_below seed ((high + 2 ^ 32 - low) % 2 ^ 32)).0,
  ((random_below seed ((high + 2 ^ 32 - low) % 2 ^ 32)).1 + low) % 2 ^ 32,
)
