-- ===== src/Names/Served.antt =====
-- The name server over a history of requests: a name is never handed out twice.
use canna.Prelude.{
  ℕ, ◌+◌, ◌≤◌, ◌<◌, ◌≡◌, ◌≢◌, refl, ◌⊎◌, inl, inr, List, [], ◌∷◌, ◌++◌, Option, none, some, arith,
  Bool-cases, none-ne-some,
}
use canna.Names.{
  Name, NamePair, Groups, serial_size, name_eq, find, insert, suffix, allot_name_pair,
  get_name_list, serve,
}
use canna.Names.Allot.{
  IsValid, next_serial, pair_after, allotted, name_eq_iff, find-insert, allot_name_pair_lem,
  allotted-IsValid, empty-IsValid,
}
use mathlib.Core.Logic.{⊎_elim}
use canna.Names.Unique.{name_inj}

-- The publications that a sequence of requests gets, `none` where a request never returns.
unfoldable pub run : Groups → List Name → Option (List Name)
run m [] = some []
run m (group ∷ rest) = elim (allot_name_pair m group) [
  | none ↦ none
  | some (m', name) ↦ elim (run m' rest) [ none ↦ none | some names ↦ some (name ∷ names) ]
]

-- The same, where every request returns.
abbrev pub published : Groups → List Name → List Name
published m [] = []
published m (group ∷ rest) =
    let r = allotted m group (next_serial (find group m)) in r.1 ∷ published r.0 rest

-- A name that no group of the map has handed out.
abbrev pub IsNew : Groups → Name → Type 0
IsNew m x =
    (group : Name) (p : NamePair) (i : ℕ)
    → find group m ≡ some p
    → i ≤ p.serial
    → x ≢ group ++ suffix i

abbrev pub AllNew : Groups → List Name → Type 0
AllNew m [] = Unit
AllNew m (x ∷ xs) = ((x ≡ []) ⊎ IsNew m x) × AllNew m xs

-- No name of the list is `x`, but for empty names.
abbrev pub Others : Name → List Name → Type 0
Others x [] = Unit
Others x (y ∷ ys) = ((y ≡ []) ⊎ (y ≢ x)) × Others x ys

-- No name but the empty one comes twice.
abbrev pub Distinct : List Name → Type 0
Distinct [] = Unit
Distinct (x ∷ xs) = ((x ≡ []) ⊎ Others x xs) × Distinct xs

-- In a valid map every request returns.
run-published : (m : Groups) (reqs : List Name) → IsValid m → run m reqs ≡ some (published m reqs)
unfolding run
run-published m [] v = refl
run-published m (group ∷ rest) v =
    let next = next_serial (find group m) in
    rw (allot_name_pair_lem m group v, run)
      (rw (run-published (allotted m group next).0 rest (allotted-IsValid m group v), run) refl)

next_serial-above :
    (o : Option NamePair) (p : NamePair) (i : ℕ)
    → o ≡ some p
    → next_serial o ≡ some i
    → (i ≡ p.serial + 1) × (i < serial_size)
next_serial-above none p i e n = absurd (none-ne-some e)
next_serial-above (some q) p i e n = ground arith

next_serial-small : (o : Option NamePair) (i : ℕ) → next_serial o ≡ some i → i < serial_size
next_serial-small none i n = ground arith
next_serial-small (some q) i n = ground arith

-- The name handed out was new.
IsNew-before :
    (m : Groups) (group : Name) (i : ℕ)
    → IsValid m
    → next_serial (find group m) ≡ some i
    → IsNew m (group ++ suffix i)
IsNew-before m group i v n g p j e h same =
    let small = next_serial-small (find group m) i n in
    let ordered = v g p e in
    let (groups, serials) =
      name_inj group g i j (omega arith) (omega (arith, ordered.small)) same in
    absurd (omega (arith, (next_serial-above (find group m) p i (rw groups e) n).0))

-- The pair that an insertion leaves has handed out no less than the pair before.
pair_after_mono :
    (o : Option NamePair) (p : NamePair) (i : ℕ)
    → o ≡ some p
    → next_serial o ≡ some i
    → p.serial ≤ (pair_after o i).serial
pair_after_mono none p i e n = absurd (none-ne-some e)
pair_after_mono (some q) p i e n = ground arith

pair_after-serial :
    (o : Option NamePair) (i : ℕ) → next_serial o ≡ some i → (pair_after o i).serial ≡ i
pair_after-serial none i n = ground arith
pair_after-serial (some q) i n = refl

-- The name handed out is not new any more.
known_after :
    (m : Groups) (group x : Name) (i : ℕ)
    → next_serial (find group m) ≡ some i
    → IsNew (insert group (pair_after (find group m) i) m) x
    → x ≢ group ++ suffix i
known_after m group x i n new =
    new group (pair_after (find group m) i) i
      (rw
        (find-insert group group (pair_after (find group m) i) m, (name_eq_iff group group).1 refl)
        refl)
      (omega (arith, pair_after-serial (find group m) i n))

-- What is new after a request was new before it.
IsNew-mono :
    (m : Groups) (group x : Name) (i : ℕ)
    → next_serial (find group m) ≡ some i
    → IsNew (insert group (pair_after (find group m) i) m) x
    → IsNew m x
IsNew-mono m group x i n new g p j e h = elim (Bool-cases (name_eq group g)) [
  | inl same ↦
      let at_group : find group m ≡ some p = rw ((name_eq_iff group g).0 same) e in
      new g (pair_after (find group m) i) j
        (rw (find-insert group g (pair_after (find group m) i) m, same) refl)
        (omega (arith, pair_after_mono (find group m) p i at_group n))
  | inr other ↦ new g p j (rw (find-insert group g (pair_after (find group m) i) m, other) e) h
]

map_new :
    (m n : Groups) (xs : List Name)
    → ((x : Name) → IsNew n x → IsNew m x)
    → AllNew n xs
    → AllNew m xs
map_new m n [] keep v = tt
map_new m n (x ∷ xs) keep v = (⊎_elim inl (λ new. inr (keep x new)) v.0, map_new m n xs keep v.1)

Others-new :
    (n : Groups) (y : Name) (xs : List Name)
    → ((x : Name) → IsNew n x → x ≢ y)
    → AllNew n xs
    → Others y xs
Others-new n y [] differ v = tt
Others-new n y (x ∷ xs) differ v =
    (⊎_elim inl (λ new. inr (differ x new)) v.0, Others-new n y xs differ v.1)

-- One request: what it publishes is empty or new, and differs from all that is new afterwards.
record Fresh (m : Groups) (r : Groups × Name) : Type 0 where
  new : (r.1 ≡ []) ⊎ IsNew m r.1
  older : (x : Name) → IsNew r.0 x → IsNew m x
  apart : (r.1 ≡ []) ⊎ ((x : Name) → IsNew r.0 x → x ≢ r.1)

allotted-Fresh :
    (m : Groups) (group : Name) (next : Option ℕ)
    → IsValid m
    → next_serial (find group m) ≡ next
    → Fresh m (allotted m group next)
allotted-Fresh m group none v n = record { new = inl refl; older = λ x new. new; apart = inl refl }
allotted-Fresh m group (some i) v n = record {
  new = inr (IsNew-before m group i v n);
  older = λ x. IsNew-mono m group x i n;
  apart = inr (λ x. known_after m group x i n);
}

published-AllNew : (reqs : List Name) (m : Groups) → IsValid m → AllNew m (published m reqs)
published-AllNew [] m v = tt
published-AllNew (group ∷ rest) m v =
    let r = allotted m group (next_serial (find group m)) in
    let fresh = allotted-Fresh m group (next_serial (find group m)) v refl in
    (
      fresh.new,
      map_new m r.0 (published r.0 rest) fresh.older
          (published-AllNew rest r.0 (allotted-IsValid m group v)),
    )

pub published-Distinct : (reqs : List Name) (m : Groups) → IsValid m → Distinct (published m reqs)
published-Distinct [] m v = tt
published-Distinct (group ∷ rest) m v =
    let r = allotted m group (next_serial (find group m)) in
    let fresh = allotted-Fresh m group (next_serial (find group m)) v refl in
    let kept = allotted-IsValid m group v in
    (
      ⊎_elim inl
          (λ apart.
            inr (Others-new r.0 r.1 (published r.0 rest) apart (published-AllNew rest r.0 kept)))
          fresh.apart,
      published-Distinct rest r.0 kept,
    )

-- From an empty map every sequence of requests, for any groups, is answered in full, and no name
-- but the empty one is handed out twice.
pub run-Distinct :
    (reqs : List Name) → (names : List Name) × (run [] reqs ≡ some names) × Distinct names
run-Distinct reqs = (
  published [] reqs,
  run-published [] reqs empty-IsValid,
  published-Distinct reqs [] empty-IsValid,
)

-- A request always gets an answer: the serialized list of the group's names, the new one included,
-- and the publication of the new name.
module _ (serialize : List Name → List ℕ) where
  pub serve_lem :
      (m : Groups) (group : Name)
      → IsValid m
      → let r = allotted m group (next_serial (find group m)) in
        serve serialize m group ≡ some (r.0, serialize (get_name_list r.0 group), r.1)
  unfolding serve
  serve_lem m group v = rw (allot_name_pair_lem m group v, serve) refl
