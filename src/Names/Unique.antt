-- ===== src/Names/Unique.antt =====
-- Names: the suffix tells the serials of a group apart, and no two groups share a name.
use canna.Prelude.{
  ℕ, ◌<◌, ◌≡◌, refl, ap, sym, ◌∙◌, List, [], ◌∷◌, ◌++◌, arith, length, length-append,
}
use canna.Names.{Name, suffix}

-- The serial is read back from its four octal digits.
suffix_inj : (i j : ℕ) → i < 4096 → j < 4096 → suffix i ≡ suffix j → i ≡ j
unfolding suffix
suffix_inj i j p q h = ground arith

length-suffix : (i : ℕ) → length (suffix i) ≡ 5
unfolding suffix
length-suffix i = refl

append_inj : (a b c d : List ℕ) → length c ≡ length d → a ++ c ≡ b ++ d → (a ≡ b) × (c ≡ d)
append_inj [] [] c d l h = (refl, h)
append_inj [] (y ∷ b) c d l h = absurd (omega (arith, ap length h, length-append (y ∷ b) d))
append_inj (x ∷ a) [] c d l h = absurd (omega (arith, ap length h, length-append (x ∷ a) c))
append_inj (x ∷ a) (y ∷ b) c d l h =
    let (first, rest) = cons_inj h in let (heads, tails) = append_inj a b c d l rest in (cc, tails)
  where
    cons_inj : {v w : ℕ} {vs ws : List ℕ} → v ∷ vs ≡ w ∷ ws → (v ≡ w) × (vs ≡ ws)
    cons_inj e = ground arith

-- Two names that were made from a group and a serial below 4096 are equal only if both the group
-- and the serial are, also where one group's name continues another's.
pub name_inj :
    (a b : Name) (i j : ℕ) → i < 4096 → j < 4096 → a ++ suffix i ≡ b ++ suffix j → (a ≡ b) × (i ≡ j)
name_inj a b i j p q h =
    let (groups, tails) =
      append_inj a b (suffix i) (suffix j) (length-suffix i ∙ sym (length-suffix j)) h in
    (groups, suffix_inj i j p q tails)
