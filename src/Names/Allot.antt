-- ===== src/Names/Allot.antt =====
-- What allotnamepair promises for one group.
use canna.Prelude.{
  ℕ, zero, suc, ◌+◌, ◌%◌, ◌≤◌, ◌<◌, ◌≡◌, refl, ap, ◌∙◌, inl, inr, Bool, true, false, [], ◌∷◌, ◌++◌,
  Option, none, some, arith, if◌then◌else◌, leb, Bool-cases, Option-cases, ◌↔◌, ltb, ltb→lt, subst,
  some_inj, none-ne-some,
}
use canna.Names.{
  Name, NamePair, Groups, serial_size, name_eq, find, insert, all_set, set_bit, suffix, next_free,
  allot_found, first_pair, allot_name_pair,
}

pub name_eq_iff : (a b : Name) → (name_eq a b ≡ true) ↔ (a ≡ b)
unfolding name_eq
name_eq_iff [] [] = (λ _. refl, λ _. refl)
name_eq_iff [] (y ∷ ys) = (λ h. cc, λ h. cc)
name_eq_iff (x ∷ xs) [] = (λ h. cc, λ h. cc)
name_eq_iff (x ∷ xs) (y ∷ ys) = ground (arith, (name_eq_iff xs ys).0, (name_eq_iff xs ys).1)

-- What is found after an insertion.
pub find-insert :
    (a b : Name) (p : NamePair) (m : Groups)
    → find b (insert a p m) ≡ (if name_eq a b then some p else find b m)
unfolding find insert
find-insert a b p [] = refl
find-insert a b p ((n, q) ∷ m) = ground (
  arith,
  (name_eq_iff n a).0,
  (name_eq_iff n b).0,
  (name_eq_iff a b).0,
  (name_eq_iff n a).1,
  (name_eq_iff n b).1,
  (name_eq_iff a b).1,
  find-insert a b p m,
)

-- Serials are handed out in order and never taken back: exactly those up to the last one are set.
pub record IsOrdered (p : NamePair) : Type 0 where
  pub small : p.serial < serial_size
  pub prefix : (i : ℕ) → i < serial_size → p.bits i ≡ leb i p.serial

all_set-prefix :
    (n serial : ℕ) (bits : ℕ → Bool)
    → n ≤ serial_size
    → ((i : ℕ) → i < serial_size → bits i ≡ leb i serial)
    → all_set n bits ≡ leb n (serial + 1)
unfolding all_set
all_set-prefix zero serial bits h p = ground arith
all_set-prefix (suc n) serial bits h p =
    ground (arith, p n (omega arith), all_set-prefix n serial bits (omega arith) p)

next_free-step :
    (fuel serial : ℕ) (bits : ℕ → Bool)
    → bits ((serial + 1) % 256) ≡ false
    → next_free (suc fuel) serial bits ≡ some ((serial + 1) % 256)
unfolding next_free
next_free-step fuel serial bits h = rw h refl

next_free-prefix :
    (p : NamePair)
    → IsOrdered p
    → p.serial + 1 < serial_size
    → next_free serial_size p.serial p.bits ≡ some (p.serial + 1)
next_free-prefix p v h =
    let i : ℕ = (p.serial + 1) % 256 in
    let same : i ≡ p.serial + 1 = omega arith in
    next_free-step 255 p.serial p.bits (v.prefix i (omega arith) ∙ ground (arith, same))
    ∙ ap some same

-- A group after it handed out the serial `i`.
abbrev pub handed : ℕ → NamePair → NamePair
handed i p = record { serial = i; bits = set_bit p.bits i }

handed-IsOrdered :
    (p : NamePair) → IsOrdered p → p.serial + 1 < serial_size → IsOrdered (handed (p.serial + 1) p)
handed-IsOrdered p v h = record { small = h; prefix = λ i q. ground (arith, v.prefix i q) }

first_pair-IsOrdered : IsOrdered first_pair
first_pair-IsOrdered = record { small = omega arith; prefix = λ i q. ground arith }

-- Every group of the map is ordered.
abbrev pub IsValid : Groups → Type 0
IsValid m = (name : Name) (p : NamePair) → find name m ≡ some p → IsOrdered p

-- The next serial of a group: 0 for a new one, and `none` once all 256 are handed out.
abbrev pub next_serial : Option NamePair → Option ℕ
next_serial none = some 0
next_serial (some p) = if ltb (p.serial + 1) serial_size then some (p.serial + 1) else none

-- The pair of a group after it handed out a serial.
abbrev pub pair_after : Option NamePair → ℕ → NamePair
pair_after none i = first_pair
pair_after (some p) i = handed i p

-- What a request for a name does, by the next serial of the group.
abbrev pub allotted : Groups → Name → Option ℕ → Groups × Name
allotted m name none = (m, [])
allotted m name (some i) = (insert name (pair_after (find name m) i) m, name ++ suffix i)

allot_found_lem :
    (m : Groups) (name : Name) (p : NamePair)
    → IsOrdered p
    → find name m ≡ some p
    → allot_found m name p ≡ some (allotted m name (next_serial (some p)))
unfolding allot_found
allot_found_lem m name p v e = elim (Bool-cases (ltb (p.serial + 1) serial_size)) [
  | inl room ↦
      rw
        (
          room,
          next_free-prefix p v (ltb→lt _ _ room),
          all_set-prefix serial_size p.serial p.bits (omega arith) v.prefix,
          e,
        )
        (ground arith)
  | inr full ↦
      rw (full, all_set-prefix serial_size p.serial p.bits (omega arith) v.prefix)
        (ground (arith, v.small))
]

-- In a valid map `allotnamepair` always returns. A new group gets the serial 0; a group that has
-- handed out fewer than 256 gets the next one, which is marked and appended to the group's name;
-- any other gets the empty name, and nothing changes.
pub allot_name_pair_lem :
    (m : Groups) (name : Name)
    → IsValid m
    → allot_name_pair m name ≡ some (allotted m name (next_serial (find name m)))
unfolding allot_name_pair
allot_name_pair_lem m name v = elim (Option-cases (find name m)) [
  | inl e ↦ ground arith
  | inr (p, e) ↦ ground (arith, allot_found_lem m name p (v name p e) e)
]

pair_after-IsOrdered :
    (m : Groups) (name : Name) (o : Option NamePair) (i : ℕ)
    → IsValid m
    → find name m ≡ o
    → next_serial o ≡ some i
    → IsOrdered (pair_after o i)
pair_after-IsOrdered m name none i v e n = first_pair-IsOrdered
pair_after-IsOrdered m name (some p) i v e n = elim (Bool-cases (ltb (p.serial + 1) serial_size)) [
  | inl room ↦
      let same : p.serial + 1 ≡ i = some_inj (rw room at n) in
      subst (λ k. IsOrdered (handed k p)) same (handed-IsOrdered p (v name p e) (ltb→lt _ _ room))
  | inr full ↦ absurd (none-ne-some (rw full at n))
]

insert-IsValid :
    (m : Groups) (name : Name) (p : NamePair) → IsValid m → IsOrdered p → IsValid (insert name p m)
insert-IsValid m name p v w b q h = elim (Bool-cases (name_eq name b)) [
  | inl same ↦ subst IsOrdered (some_inj (rw (find-insert name b p m, same) at h)) w
  | inr other ↦ v b q (rw (find-insert name b p m, other) at h)
]

allotted_next-IsValid :
    (m : Groups) (name : Name) (i : Option ℕ)
    → IsValid m
    → next_serial (find name m) ≡ i
    → IsValid (allotted m name i).0
allotted_next-IsValid m name none v n = v
allotted_next-IsValid m name (some i) v n =
    insert-IsValid m name (pair_after (find name m) i) v
      (pair_after-IsOrdered m name (find name m) i v refl n)

-- A call keeps every group ordered.
pub allotted-IsValid :
    (m : Groups) (name : Name) → IsValid m → IsValid (allotted m name (next_serial (find name m))).0
allotted-IsValid m name v = allotted_next-IsValid m name (next_serial (find name m)) v refl

-- The empty map is valid.
pub empty-IsValid : IsValid []
unfolding find
empty-IsValid name p h = absurd (none-ne-some h)
