-- ===== src/Prelude/Tally.antt =====
-- Sums over a list.
use Prim.Native.Nat.{ℕ, zero, suc, ◌+◌, ◌*◌, ◌≤◌}
use mathlib.Core.Path.{◌≡◌, refl, ap}
use mathlib.Core.Logic.{◌⊎◌, inl, inr}
use mathlib.Core.Bool.{Bool, true, false}
use mathlib.Core.List.{List, [], ◌∷◌, ◌++◌}
use native.Mathlib.Omega.{arith}

abbrev pub tally {ℓ} : {A : Type ℓ} → (A → ℕ) → List A → ℕ
tally f [] = 0
tally f (x ∷ xs) = f x + tally f xs

abbrev pub one : Bool → ℕ
one true = 1
one false = 0

pub tally-append {ℓ} :
    {A : Type ℓ} (f : A → ℕ) (a b : List A) → tally f (a ++ b) ≡ tally f a + tally f b
tally-append f [] b = omega arith
tally-append f (x ∷ a) b = omega (arith, tally-append f a b)

-- One element in the place of another.
pub tally-replaced {ℓ} :
    {A : Type ℓ} (f : A → ℕ) (xs before after : List A) (v w : A)
    → xs ≡ before ++ v ∷ after
    → tally f (before ++ w ∷ after) + f v ≡ tally f xs + f w
tally-replaced f xs before after v w e =
    let h = ap (tally f) e in
    omega (arith, h, tally-append f before (v ∷ after), tally-append f before (w ∷ after))

pub tally-at {ℓ} :
    {A : Type ℓ} (f : A → ℕ) (xs before after : List A) (v : A)
    → xs ≡ before ++ v ∷ after
    → f v ≤ tally f xs
tally-at f xs before after v e =
    let h = ap (tally f) e in omega (arith, h, tally-append f before (v ∷ after))

pub tally-le {ℓ} :
    {A : Type ℓ} (f g : A → ℕ) (k : ℕ) (xs : List A)
    → ((x : A) → f x ≤ k * g x)
    → tally f xs ≤ k * tally g xs
tally-le f g k [] le = omega arith
tally-le f g k (x ∷ xs) le = grind (arith, le x, tally-le f g k xs le)

-- An element that counts.
abbrev pub Found {ℓ} : {A : Type ℓ} → (A → ℕ) → List A → Type ℓ
Found {A = A} f xs =
    (before : List A) × (x : A) × (after : List A) × (xs ≡ before ++ x ∷ after) × (1 ≤ f x)

pub tally-Found {ℓ} : {A : Type ℓ} (f : A → ℕ) (xs : List A) → (tally f xs ≡ 0) ⊎ Found f xs
tally-Found f [] = inl refl
tally-Found f (x ∷ xs) = elim (tally-Found f xs) [
  | inr (before, y, after, e, h) ↦ inr (x ∷ before, y, after, ap (λ l. x ∷ l) e, h)
  | inl none_else ↦ elim (zero_or (f x)) [
    | inl e ↦ inl (omega (arith, e, none_else))
    | inr h ↦ inr ([], x, xs, refl, h)
  ]
]
  where
    zero_or : (n : ℕ) → (n ≡ 0) ⊎ (1 ≤ n)
    zero_or zero = inl refl
    zero_or (suc n) = inr (omega arith)
