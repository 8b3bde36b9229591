-- ===== src/Names/Listing.antt =====
-- What getnamelist returns.
use canna.Prelude.{
  ℕ, zero, suc, ◌+◌, ◌-◌, ◌≤◌, ◌<◌, ◌≡◌, refl, ap, ◌∙◌, Bool, List, [], ◌∷◌, ◌++◌, Option, none,
  some, arith, leb, min,
}
use canna.Names.{
  Name, NamePair, Groups, serial_size, find, count_set, suffix, list_from, get_name_list,
}
use canna.Names.Allot.{IsOrdered, IsValid}

-- The names with the serials `i`, `i + 1`, …, in order.
abbrev pub names : Name → ℕ → ℕ → List Name
names name i zero = []
names name i (suc n) = (name ++ suffix i) ∷ names name (i + 1) n

count_set-prefix :
    (n serial : ℕ) (bits : ℕ → Bool)
    → n ≤ serial_size
    → ((i : ℕ) → i < serial_size → bits i ≡ leb i serial)
    → count_set n bits ≡ min n (serial + 1)
unfolding count_set
count_set-prefix zero serial bits h p = omega arith
count_set-prefix (suc n) serial bits h p =
    ground (arith, p n (omega arith), count_set-prefix n serial bits (omega arith) p)

-- The loop finds a name at each serial up to the last, where the count reaches the total.
list_from-prefix :
    (name : Name) (p : NamePair) (left i : ℕ)
    → IsOrdered p
    → i ≤ p.serial
    → i + left ≡ serial_size
    → list_from name p.bits (p.serial + 1) left i i ≡ names name i (p.serial + 1 - i)
unfolding list_from
list_from-prefix name p zero i v h e = absurd (omega (arith, v.small))
list_from-prefix name p (suc left) i v h e = ground (
  arith,
  v.prefix i (omega arith),
  list_from-prefix name p left (i + 1) v,
  names_step (p.serial + 1 - i) (omega arith),
)
  where
    names_step : (n : ℕ) → 0 < n → names name i n ≡ (name ++ suffix i) ∷ names name (i + 1) (n - 1)
    names_step zero q = absurd (omega arith)
    names_step (suc n) q = ap (λ k. (name ++ suffix i) ∷ names name (i + 1) k) (omega arith)

-- For a group that has handed out serials up to the last one `getnamelist` returns their names in
-- order, and for an unknown group no name.
pub get_name_list_lem :
    (m : Groups) (name : Name)
    → IsValid m
    → get_name_list m name ≡ elim (find name m) [ none ↦ [] | some p ↦ names name 0 (p.serial + 1) ]
unfolding get_name_list
get_name_list_lem m name v = listed (find name m) refl
  where
    listed :
        (o : Option NamePair)
        → find name m ≡ o
        → elim o [
          | some p ↦ list_from name p.bits (count_set serial_size p.bits) serial_size 0 0
          | none ↦ []
        ]
          ≡ elim o [ none ↦ [] | some p ↦ names name 0 (p.serial + 1) ]
    listed none e = refl
    listed (some p) e =
        let w = v name p e in
        let total : count_set serial_size p.bits ≡ p.serial + 1 =
          omega
            (arith, w.small, count_set-prefix serial_size p.serial p.bits (omega arith) w.prefix) in
        let all : p.serial + 1 - 0 ≡ p.serial + 1 = omega arith in
        rw total (
          list_from-prefix name p serial_size 0 w (omega arith) (omega arith)
          ∙ ap (names name 0) all)
