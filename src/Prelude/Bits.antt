-- ===== src/Prelude/Bits.antt =====
-- Exclusive or of a number shifted left and a number below the shift: their sum.
use Prim.Native.Nat.{
  ℕ, zero, suc, ◌+◌, ◌*◌, ◌/◌, ◌%◌, ◌^◌, ◌≤◌, ◌<◌, bit_xor, digits, differ, bit_xor-bitwise,
}
use mathlib.Core.Path.{◌≡◌, refl, ap}
use native.Mathlib.Nat.{pow-suc}
use native.Mathlib.Omega.{arith}

-- The digit recursion with its count of digits to go.
abbrev xor_digits : ℕ → ℕ → ℕ → ℕ
xor_digits = digits (λ b. b) differ

-- Any count that is large enough gives the same result.
xor_digits_count : (n m a b : ℕ) → a ≤ n → a ≤ m → xor_digits n a b ≡ xor_digits m a b
xor_digits_count zero zero a b p q = refl
xor_digits_count zero (suc m) zero b p q = refl
xor_digits_count zero (suc m) (suc a) b p q = absurd (omega arith)
xor_digits_count (suc n) zero zero b p q = refl
xor_digits_count (suc n) zero (suc a) b p q = absurd (omega arith)
xor_digits_count (suc n) (suc m) zero b p q = refl
xor_digits_count (suc n) (suc m) (suc a) b p q =
    ap (λ (t : ℕ). t * 2 + differ (suc a % 2) (b % 2))
      (xor_digits_count n m (suc a / 2) (b / 2) (omega arith) (omega arith))

xor-zero_left : (b : ℕ) → bit_xor 0 b ≡ b
xor-zero_left b = bit_xor-bitwise 0 b

differ-zero : (b : ℕ) → b < 2 → differ 0 b ≡ b
differ-zero zero h = refl
differ-zero (suc zero) h = refl
differ-zero (suc (suc b)) h = absurd (omega arith)

xor_step : (a b : ℕ) → bit_xor a b ≡ bit_xor (a / 2) (b / 2) * 2 + differ (a % 2) (b % 2)
xor_step zero b =
    omega (arith, xor-zero_left b, xor-zero_left (b / 2), differ-zero (b % 2) (omega arith))
xor_step (suc a) b = omega (
  arith,
  bit_xor-bitwise (suc a) b,
  bit_xor-bitwise (suc a / 2) (b / 2),
  xor_digits_count a (suc a / 2) (suc a / 2) (b / 2) (omega arith) (omega arith),
)

xor-zero_right_below : (n a : ℕ) → a ≤ n → bit_xor a 0 ≡ a
xor-zero_right_below n zero h = xor-zero_left 0
xor-zero_right_below zero (suc a) h = absurd (omega arith)
xor-zero_right_below (suc n) (suc a) h = omega (
  arith,
  xor_step (suc a) 0,
  xor-zero_right_below n (suc a / 2) (omega arith),
  differ-zero_right (suc a % 2) (omega arith),
)
  where
    differ-zero_right : (d : ℕ) → d < 2 → differ d 0 ≡ d
    differ-zero_right zero p = refl
    differ-zero_right (suc d) p = refl

xor-double : (a b : ℕ) → bit_xor (a * 2) b ≡ bit_xor a (b / 2) * 2 + b % 2
xor-double a b =
    let half : a * 2 / 2 ≡ a = omega arith in
    let even : a * 2 % 2 ≡ 0 = omega arith in
    omega (
      arith,
      xor_step (a * 2) b,
      ap (λ (t : ℕ). bit_xor t (b / 2)) half,
      ap (λ (t : ℕ). differ t (b % 2)) even,
      differ-zero (b % 2) (omega arith),
    )

-- `a << k ^ b` has the digits of `b` below those of `a`.
pub xor_shifted : (k a b : ℕ) → b < 2 ^ k → bit_xor (a * 2 ^ k) b ≡ a * 2 ^ k + b
xor_shifted zero a b h =
    let low : b ≡ 0 = omega arith in
    let same : a * 2 ^ 0 ≡ a = omega arith in
    omega (
      arith,
      ap (λ (t : ℕ). bit_xor t b) same,
      ap (λ (t : ℕ). bit_xor a t) low,
      xor-zero_right_below a a (omega arith),
    )
xor_shifted (suc k) a b h =
    let grow : a * 2 ^ suc k ≡ a * 2 ^ k * 2 = rw pow-suc (omega arith) in
    let h' : b < 2 ^ k * 2 = rw pow-suc at h in
    omega (
      arith,
      grow,
      ap (λ (t : ℕ). bit_xor t b) grow,
      xor-double (a * 2 ^ k) b,
      xor_shifted k a (b / 2) (omega arith),
    )
