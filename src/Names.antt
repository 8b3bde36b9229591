-- ===== src/Names.antt =====
-- nameserver/name_ctrl.h and name_ctrl.cpp, and the request loop of name_server.cpp: groups of
-- names, each with up to 256 serial numbers. A name is its bytes.
pub mod Allot
pub mod Listing
pub mod Unique
pub mod Served
pub mod Server
pub mod Loop
mod Tests
use canna.Prelude.{
  ℕ, zero, suc, ◌+◌, ◌*◌, ◌/◌, ◌%◌, Bool, true, false, List, [], ◌∷◌, ◌++◌, Option, none, some,
  if◌then◌else◌, ◌==◌, ◌&&◌, leb,
}

-- SERIAL_SIZE
abbrev pub serial_size : ℕ
serial_size = 256

abbrev pub Name : Type 0
Name = List ℕ

-- `struct name_pair`; the bit set is the test of its bits.
pub record NamePair : Type 0 where
  pub serial : ℕ
  pub bits : ℕ → Bool

-- `m_serialmap`
abbrev pub Groups : Type 0
Groups = List (Name × NamePair)

unfoldable pub name_eq : Name → Name → Bool
name_eq [] [] = true
name_eq [] (y ∷ ys) = false
name_eq (x ∷ xs) [] = false
name_eq (x ∷ xs) (y ∷ ys) = x == y && name_eq xs ys

-- `find` and the update of a found entry, or the insertion of a new one.
unfoldable pub find : Name → Groups → Option NamePair
find name [] = none
find name ((n, p) ∷ rest) = if name_eq n name then some p else find name rest

unfoldable pub insert : Name → NamePair → Groups → Groups
insert name p [] = (name, p) ∷ []
insert name p ((n, q) ∷ rest) =
    if name_eq n name then (n, p) ∷ rest else (n, q) ∷ insert name p rest

-- `bitset.all()` and `bitset.count()`, over the first bits.
unfoldable pub all_set : ℕ → (ℕ → Bool) → Bool
all_set zero bits = true
all_set (suc n) bits = bits n && all_set n bits

unfoldable pub count_set : ℕ → (ℕ → Bool) → ℕ
count_set zero bits = 0
count_set (suc n) bits = (if bits n then 1 else 0) + count_set n bits

abbrev pub set_bit : (ℕ → Bool) → ℕ → ℕ → Bool
set_bit bits i j = if j == i then true else bits j

-- The digit characters and `sprintf(buff, "-%.4o", serial)` for a serial below 4096.
abbrev pub digit : ℕ → ℕ
digit d = b'0' + d % 8

unfoldable pub suffix : ℕ → Name
suffix i = b'-' ∷ digit (i / 512) ∷ digit (i / 64) ∷ digit (i / 8) ∷ digit i ∷ []

-- The loop of `allotnamepair` over the serials after the last one, with the rounds allowed; `none`
-- if it is still running.
unfoldable pub next_free : ℕ → ℕ → (ℕ → Bool) → Option ℕ
next_free zero serial bits = none
next_free (suc fuel) serial bits =
    let i : ℕ = (serial + 1) % 256 in
    let rest = next_free fuel i bits in if bits i then rest else some i

-- The new groups and the name, empty where the group is used up.
unfoldable pub allot_found : Groups → Name → NamePair → Option (Groups × Name)
allot_found m name p =
    if all_set serial_size p.bits
    then some (m, [])
    else elim (next_free serial_size p.serial p.bits) [
      | none ↦ none
      | some i ↦
          some (insert name (record { serial = i; bits = set_bit p.bits i }) m, name ++ suffix i)
    ]

abbrev pub first_pair : NamePair
first_pair = record { serial = 0; bits = set_bit (λ _. false) 0 }

unfoldable pub allot_name_pair : Groups → Name → Option (Groups × Name)
allot_name_pair m name = elim (find name m) [
  | some p ↦ allot_found m name p
  | none ↦ some (insert name first_pair m, name ++ suffix 0)
]

-- The loop of `getnamelist` from the serial `i` on, with the serials left. It stops once `count`
-- names of `total` are found.
unfoldable pub list_from : Name → (ℕ → Bool) → ℕ → ℕ → ℕ → ℕ → List Name
list_from name bits total zero i count = []
list_from name bits total (suc left) i count =
    let stopped : List Name = (name ++ suffix i) ∷ [] in
    let found = list_from name bits total left (i + 1) (count + 1) in
    let missed = list_from name bits total left (i + 1) count in
    if bits i
    then (if leb total (count + 1) then stopped else (name ++ suffix i) ∷ found)
    else missed

unfoldable pub get_name_list : Groups → Name → List Name
get_name_list m name = elim (find name m) [
  | some p ↦ list_from name p.bits (count_set serial_size p.bits) serial_size 0 0
  | none ↦ []
]

-- One request of `server_loop`: the reply, by the serializer of protobuf, and the publication.
module _ (serialize : List Name → List ℕ) where
  unfoldable pub serve : Groups → Name → Option (Groups × List ℕ × Name)
  serve m group = elim (allot_name_pair m group) [
    | none ↦ none
    | some (m', name) ↦ some (m', serialize (get_name_list m' group), name)
  ]
