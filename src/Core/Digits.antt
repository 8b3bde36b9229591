-- ===== src/Core/Digits.antt =====
-- Reading back what a stream prints.
use canna.Prelude.{
  ℕ, zero, suc, ◌+◌, ◌-◌, ◌*◌, ◌/◌, ◌%◌, ◌^◌, ◌<◌, ◌≡◌, ◌≢◌, refl, ◌∙◌, inl, inr, Bool, true, false,
  List, [], ◌∷◌, ◌++◌, arith, ltb, leb, if◌then◌else◌, Bool-cases, length, replicate,
}
use native.Mathlib.Nat.{pow-suc}
use canna.Core.{digit, digits, padded}

-- A digit read in either case.
abbrev pub digit_value : ℕ → ℕ
digit_value c = if leb c b'9' then c - b'0' else if leb c b'Z' then c - b'A' + 10 else c - b'a' + 10

abbrev pub value_from : ℕ → ℕ → List ℕ → ℕ
value_from base acc [] = acc
value_from base acc (c ∷ cs) = value_from base (acc * base + digit_value c) cs

abbrev pub value : ℕ → List ℕ → ℕ
value base cs = value_from base 0 cs

digit-value : (upper : Bool) (d : ℕ) → d < 16 → digit_value (digit upper d) ≡ d
digit-value true d h = ground arith
digit-value false d h = ground arith

value_from-append :
    (base acc : ℕ) (xs ys : List ℕ)
    → value_from base acc (xs ++ ys) ≡ value_from base (value_from base acc xs) ys
value_from-append base acc [] ys = refl
value_from-append base acc (x ∷ xs) ys = value_from-append base (acc * base + digit_value x) xs ys

-- A hexadecimal number of at most so many digits reads back.
pub value-digits :
    (upper : Bool) (left n : ℕ) → n < 16 ^ left → value 16 (digits upper 16 left n) ≡ n
unfolding digits
value-digits upper zero n h = omega arith
value-digits upper (suc left) n h = elim (Bool-cases (ltb n 16)) [
  | inl small ↦ rw small (omega (arith, digit-value upper n (ground arith)))
  | inr big ↦ rw big (
      value_from-append 16 0 (digits upper 16 left (n / 16)) (digit upper (n % 16) ∷ [])
      ∙ omega (
        arith,
        value-digits upper left (n / 16) (omega (arith, pow-suc 16 left)),
        digit-value upper (n % 16) (omega arith),
      ))
]

value-zeros : (k : ℕ) (cs : List ℕ) → value 16 (replicate k b'0' ++ cs) ≡ value 16 cs
value-zeros zero cs = refl
value-zeros (suc k) cs = value-zeros k cs

pub value-padded : (width : ℕ) (cs : List ℕ) → value 16 (padded width cs) ≡ value 16 cs
value-padded width cs = value-zeros (width - length cs) cs

-- All characters of the text are digits.
abbrev pub AllDigits : List ℕ → Type 0
AllDigits [] = Unit
AllDigits (c ∷ cs) = (c ≢ b'-') × AllDigits cs

AllDigits-append : (xs ys : List ℕ) → AllDigits xs → AllDigits ys → AllDigits (xs ++ ys)
AllDigits-append [] ys h k = k
AllDigits-append (x ∷ xs) ys h k = (h.0, AllDigits-append xs ys h.1 k)

digits-AllDigits : (upper : Bool) (left n : ℕ) → AllDigits (digits upper 16 left n)
unfolding digits
digits-AllDigits upper zero n = tt
digits-AllDigits upper (suc left) n = elim (Bool-cases (ltb n 16)) [
  | inl small ↦ rw small (ground arith, tt)
  | inr big ↦ rw big (
      AllDigits-append (digits upper 16 left (n / 16)) (digit upper (n % 16) ∷ [])
        (digits-AllDigits upper left (n / 16)) (ground arith, tt))
]

zeros-AllDigits : (k : ℕ) → AllDigits (replicate k b'0')
zeros-AllDigits zero = tt
zeros-AllDigits (suc k) = (omega arith, zeros-AllDigits k)

pub padded-AllDigits :
    (upper : Bool) (width left n : ℕ) → AllDigits (padded width (digits upper 16 left n))
padded-AllDigits upper width left n =
    AllDigits-append (replicate (width - length (digits upper 16 left n)) b'0')
      (digits upper 16 left n) (zeros-AllDigits (width - length (digits upper 16 left n)))
      (digits-AllDigits upper left n)
