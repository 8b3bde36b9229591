-- ===== src/Core/Identity.antt =====
-- The identities that canna_setid gives to sockets.
use canna.Prelude.{
  ℕ, ◌^◌, ◌<◌, ◌≡◌, ◌≢◌, refl, sym, ap, ap₂, ◌∙◌, true, List, [], ◌∷◌, ◌++◌, Option, none, some,
  arith, ◌==◌, if◌then◌else◌, none-ne-some,
}
use canna.Core.{digits, padded, set_id}
use canna.Core.Digits.{AllDigits, value, value-digits, value-padded, padded-AllDigits}

-- A text before its first dash and behind it.
unfoldable pub split_dash : List ℕ → Option (List ℕ × List ℕ)
split_dash [] = none
split_dash (c ∷ cs) =
    if c == b'-'
    then some ([], cs)
    else elim (split_dash cs) [ none ↦ none | some (before, behind) ↦ some (c ∷ before, behind) ]

-- The two numbers of an identity.
unfoldable pub parse_id : List ℕ → Option (ℕ × ℕ)
parse_id cs = elim (split_dash cs) [
  | none ↦ none
  | some (before, behind) ↦ some (value 16 before, value 16 behind)
]

split_dash-append : (xs ys : List ℕ) → AllDigits xs → split_dash (xs ++ b'-' ∷ ys) ≡ some (xs, ys)
unfolding split_dash
split_dash-append [] ys h = refl
split_dash-append (x ∷ xs) ys h = ground (arith, split_dash-append xs ys h.1)

padded-value : (n : ℕ) → n < 2 ^ 32 → value 16 (padded 4 (digits true 16 8 n)) ≡ n
padded-value n h = value-padded 4 (digits true 16 8 n) ∙ value-digits true 8 n (omega arith)

parse_split :
    (cs before behind : List ℕ)
    → split_dash cs ≡ some (before, behind)
    → parse_id cs ≡ some (value 16 before, value 16 behind)
unfolding parse_id
parse_split cs before behind h = rw (h, parse_id) refl

-- The two numbers of an identity can be read back, so identities of different pairs of numbers
-- differ, also where a number takes more than the four digits it is padded to.
pub parse_id-set_id : (a b : ℕ) → a < 2 ^ 32 → b < 2 ^ 32 → parse_id (set_id a b) ≡ some (a, b)
unfolding parse_id set_id
parse_id-set_id a b p q =
    parse_split (set_id a b) (padded 4 (digits true 16 8 a)) (padded 4 (digits true 16 8 b)) (
      split_dash-append (padded 4 (digits true 16 8 a)) (padded 4 (digits true 16 8 b))
        (padded-AllDigits true 4 8 a))
    ∙ ap₂ (λ x y. some (x, y)) (padded-value a p) (padded-value b q)

-- No identity reads "READY", or any other text without a dash.
pub set_id-ne : (a b : ℕ) (text : List ℕ) → split_dash text ≡ none → set_id a b ≢ text
unfolding set_id
set_id-ne a b text h e = none-ne-some (
    sym h
    ∙ ap split_dash (sym e)
    ∙ split_dash-append (padded 4 (digits true 16 8 a)) (padded 4 (digits true 16 8 b))
        (padded-AllDigits true 4 8 a))
