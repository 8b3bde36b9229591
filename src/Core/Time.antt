-- ===== src/Core/Time.antt =====
-- The clock and the bounds of random numbers.
use canna.Prelude.{ℕ, zero, suc, ◌+◌, ◌-◌, ◌*◌, ◌/◌, ◌^◌, ◌≤◌, ◌<◌, ◌≡◌, ◌↔◌, arith}
use canna.Core.{get_time, sleep, round_off, to_float, canna_rand}

-- The time is the microseconds since the epoch in whole milliseconds, as long as these fit 64 bits.
pub get_time_lem :
    (tv_sec tv_usec : ℕ)
    → tv_usec < 1000000
    → tv_sec * 1000 + 1000 ≤ 2 ^ 64
    → get_time tv_sec tv_usec ≡ (tv_sec * 1000000 + tv_usec) / 1000
unfolding get_time
get_time_lem tv_sec tv_usec small fits = omega arith

-- What `nanosleep` is given is a valid time of just so many milliseconds.
pub sleep_lem :
    (msecs : ℕ)
    → let (tv_sec, tv_nsec) = sleep msecs in
      (tv_nsec < 10 ^ 9) × (tv_sec * 10 ^ 9 + tv_nsec ≡ msecs * 1000000)
unfolding sleep
sleep_lem msecs = omega arith

round_off-le : (e r : ℕ) → e < 7 → round_off e r ≤ r + 64
unfolding round_off
round_off-le zero r h = ground arith
round_off-le (suc zero) r h = ground arith
round_off-le (suc (suc zero)) r h = ground arith
round_off-le (suc (suc (suc zero))) r h = ground arith
round_off-le (suc (suc (suc (suc zero)))) r h = ground arith
round_off-le (suc (suc (suc (suc (suc zero))))) r h = ground arith
round_off-le (suc (suc (suc (suc (suc (suc zero)))))) r h = ground arith
round_off-le (suc (suc (suc (suc (suc (suc (suc e))))))) r h = absurd (omega arith)

round_off-top :
    (r : ℕ) → r < 2 ^ 31 → (round_off 7 r ≤ 2 ^ 31) × ((round_off 7 r ≡ 2 ^ 31) ↔ (2 ^ 31 - 64 ≤ r))
unfolding round_off
round_off-top r h = ground arith

to_float-bounds :
    (r : ℕ) → r < 2 ^ 31 → (to_float r ≤ 2 ^ 31) × ((to_float r ≡ 2 ^ 31) ↔ (2 ^ 31 - 64 ≤ r))
unfolding to_float
to_float-bounds r h =
    let (le, (first, last)) = round_off-top r h in
    ground (
      arith,
      first,
      last,
      round_off-le 1 r (omega arith),
      round_off-le 2 r (omega arith),
      round_off-le 3 r (omega arith),
      round_off-le 4 r (omega arith),
      round_off-le 5 r (omega arith),
      round_off-le 6 r (omega arith),
    )

-- `CANNA_RAND(0x10000)` is 65536, and not below it, for the last 64 values of `random`.
pub canna_rand_bounds :
    (r : ℕ) → r < 2 ^ 31 → (canna_rand r ≤ 2 ^ 16) × ((canna_rand r ≡ 2 ^ 16) ↔ (2 ^ 31 - 64 ≤ r))
unfolding canna_rand
canna_rand_bounds r h = let (le, last) = to_float-bounds r h in ground arith
