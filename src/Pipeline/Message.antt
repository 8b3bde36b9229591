-- ===== src/Pipeline/Message.antt =====
-- The message of a workload, written and read, and the time that the sink prints.
use canna.Prelude.{
  ℕ, zero, suc, ◌+◌, ◌-◌, ◌*◌, ◌/◌, ◌%◌, ◌^◌, ◌≡◌, ◌≤◌, ◌<◌, refl, inl, inr, true, false, List, [],
  ◌∷◌, ◌++◌, ltb, leb, ◌&&◌, length, length-replicate, replicate, arith, Bool-cases, ap, ◌∙◌,
  append_assoc, length-append,
}
use native.Mathlib.Nat.{pow-suc}
use canna.Core.{digits, digit}
use canna.Pipeline.{task_message, read_int, elapsed}

read_digit :
    (value d : ℕ) (rest : List ℕ)
    → d < 10
    → read_int value (digit false d ∷ rest) ≡ read_int (value * 10 + d) rest
unfolding read_int
read_digit value d rest h =
    let is_digit : leb b'0' (digit false d) && leb (digit false d) b'9' ≡ true = ground arith in
    let same : digit false d - b'0' ≡ d = ground arith in rw (is_digit, same) refl

shifted :
    (value n k l : ℕ) → l ≡ k + 1 → (value * 10 ^ k + n / 10) * 10 + n % 10 ≡ value * 10 ^ l + n
shifted value n k l e =
    let power : 10 ^ l ≡ 10 ^ k * 10 = ap (λ m. 10 ^ m) (omega (arith, e)) ∙ pow-suc 10 k in
    let times : value * 10 ^ l ≡ 10 * (value * 10 ^ k) = rw power (ten_times value (10 ^ k)) in
    omega (arith, times)
  where
    ten_times : (a p : ℕ) → a * (p * 10) ≡ 10 * (a * p)
    ten_times a p = grind arith

-- The digits of a number in front of a text.
read_int-digits :
    (left value n : ℕ) (rest : List ℕ)
    → n < 10 ^ left
    → read_int value (digits false 10 left n ++ rest)
      ≡ read_int (value * 10 ^ length (digits false 10 left n) + n) rest
unfolding digits
read_int-digits zero value n rest h = ap (λ v. read_int v rest) (omega (arith, h))
read_int-digits (suc left) value n rest h = elim (Bool-cases (ltb n 10)) [
  | inl small ↦
      let one_digit = read_digit value n rest (ground (arith, small)) in
      rw small (rw small at one_digit)
  | inr big ↦
      let text = digits false 10 left (n / 10) in
      rw big (
        ap (read_int value) (append_assoc text (digit false (n % 10) ∷ []) rest)
        ∙ read_int-digits left value (n / 10) (digit false (n % 10) ∷ rest)
            (omega (arith, h, pow-suc 10 left))
        ∙ read_digit (value * 10 ^ length text + n / 10) (n % 10) rest (omega arith)
        ∙ ap (λ v. read_int v rest)
            (shifted value n (length text) _ (length-append text (digit false (n % 10) ∷ []))))
]

read_int-zeros : (value k : ℕ) → read_int value (replicate k 0) ≡ value
unfolding read_int
read_int-zeros value zero = refl
read_int-zeros value (suc k) = refl

-- A number below a power of ten has no more digits than its exponent.
pub length-digits : (left k n : ℕ) → 1 ≤ k → n < 10 ^ k → length (digits false 10 left n) ≤ k
unfolding digits
length-digits zero k n p h = omega arith
length-digits (suc left) zero n p h = absurd (omega arith)
length-digits (suc left) (suc zero) n p h = rw small (omega arith)
  where
    small : ltb n 10 ≡ true
    small = ground (arith, h)
length-digits (suc left) (suc (suc k)) n p h = elim (Bool-cases (ltb n 10)) [
  | inl small ↦ rw small (omega arith)
  | inr big ↦ rw big (
      omega (
        arith,
        length-append (digits false 10 left (n / 10)) (digit false (n % 10) ∷ []),
        length-digits left (suc k) (n / 10) (omega arith) (omega (arith, h, pow-suc 10 (suc k))),
      ))
]

-- A workload of at most nine digits leaves room for the 0 that `sprintf` writes behind it, its
-- message is ten bytes long, and a worker reads the workload back.
pub read_int-task_message :
    (n : ℕ)
    → n < 10 ^ 9
    → (length (digits false 10 10 n) < 10)
      × (length (task_message n) ≡ 10)
      × (read_int 0 (task_message n) ≡ n)
unfolding task_message
read_int-task_message n h =
    let text = digits false 10 10 n in
    let short = length-digits 10 9 n (omega arith) h in
    (
      omega (arith, short),
      omega (
        arith,
        short,
        length-append text (replicate (10 - length text) 0),
        length-replicate {A = ℕ} (10 - length text) 0,
      ),
      read_int-digits 10 0 n (replicate (10 - length text) 0) (omega (arith, h))
          ∙ read_int-zeros (0 * 10 ^ length text + n) (10 - length text)
          ∙ omega arith,
    )

-- Where the clock has not been set back, what the sink prints is the whole milliseconds of the time
-- that has passed.
pub elapsed_lem :
    (start_sec start_usec end_sec end_usec : ℕ)
    → start_usec < 1000000
    → end_usec < 1000000
    → start_sec * 1000000 + start_usec ≤ end_sec * 1000000 + end_usec
    → elapsed (start_sec, start_usec) (end_sec, end_usec)
      ≡ (end_sec * 1000000 + end_usec - (start_sec * 1000000 + start_usec)) / 1000
unfolding elapsed
elapsed_lem a b c d h k le = ground arith
