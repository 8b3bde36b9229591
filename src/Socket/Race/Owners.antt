-- ===== src/Socket/Race/Owners.antt =====
-- Whatever the order of the threads' steps, a slot has one owner.
use canna.Prelude.{
  ℕ, ◌≡◌, ◌≢◌, ◌⊎◌, refl, sym, ap, ◌∙◌, inl, inr, true, false, Option, none, some, ◌==◌, ==_iff,
  ==_self, Bool-cases,
}
use canna.Socket.Types.{invalid, reserve, is, hash_id, minus_one, Socket}
use canna.Socket.Race.{
  Pc, adds, masks, tests, swaps, names, clears, returned, refused, Shared, Threads, update_pc,
}

-- The slot that a thread has won.
abbrev pub slot_of : Pc → Option ℕ
slot_of (adds left) = none
slot_of (masks left) = none
slot_of (tests left id) = none
slot_of (swaps left id) = none
slot_of (names id) = some (hash_id id)
slot_of (clears id) = some (hash_id id)
slot_of (returned id) = some (hash_id id)
slot_of refused = none

-- What a thread has written into its slot.
abbrev pub Written : (ℕ → Socket) → Pc → Type 0
Written slots (adds left) = Unit
Written slots (masks left) = Unit
Written slots (tests left id) = Unit
Written slots (swaps left id) = Unit
Written slots (names id) = Unit
Written slots (clears id) = (slots (hash_id id)).id ≡ id
Written slots (returned id) = ((slots (hash_id id)).id ≡ id) × ((slots (hash_id id)).fd ≡ minus_one)
Written slots refused = Unit

-- Against the slots at the start: a slot that a thread has won was free and is reserved, and has
-- one owner, whose writes are still there; any other slot is as it was.
pub record Owned (start : ℕ → Socket) (t : Threads) : Type 0 where
  pub was_free :
      (j k : ℕ)
      → slot_of (t.pcs j) ≡ some k
      → (is (start k).type invalid ≡ true) × ((t.shared.slots k).type ≡ reserve)
  pub one_owner : (i j k : ℕ) → slot_of (t.pcs i) ≡ some k → slot_of (t.pcs j) ≡ some k → i ≡ j
  pub written : (j : ℕ) → Written t.shared.slots (t.pcs j)
  pub kept : (k : ℕ) → (t.shared.slots k ≡ start k) ⊎ ((j : ℕ) × (slot_of (t.pcs j) ≡ some k))

Written-agree :
    (slots slots' : ℕ → Socket) (pc : Pc)
    → ((k : ℕ) → slot_of pc ≡ some k → slots' k ≡ slots k)
    → Written slots pc
    → Written slots' pc
Written-agree slots slots' (adds left) same w = tt
Written-agree slots slots' (masks left) same w = tt
Written-agree slots slots' (tests left id) same w = tt
Written-agree slots slots' (swaps left id) same w = tt
Written-agree slots slots' (names id) same w = tt
Written-agree slots slots' (clears id) same w = ap (λ s. s.id) (same (hash_id id) refl) ∙ w
Written-agree slots slots' (returned id) same (named, cleared) =
    let e = same (hash_id id) refl in (ap (λ s. s.id) e ∙ named, ap (λ s. s.fd) e ∙ cleared)
Written-agree slots slots' refused same w = tt

pub eq_or_not : (i j : ℕ) → (i ≡ j) ⊎ (((i == j) ≡ false) × (i ≢ j))
eq_or_not i j = elim (Bool-cases (i == j)) [
  | inl e ↦ let (to, from) = ==_iff i j in inl (to e)
  | inr e ↦ inr (e, λ h. let (to, from) = ==_iff i j in let t = from h in cc)
]

-- The step of a thread to a place in which it owns the slot `own`, or none.
pub record Moves (start : ℕ → Socket) (t : Threads) (j : ℕ) (m : Shared) (pc : Pc) : Type 0 where
  pub owns :
      (k : ℕ)
      → slot_of pc ≡ some k
      → (is (start k).type invalid ≡ true)
        × ((m.slots k).type ≡ reserve)
        × ((i : ℕ) → i ≢ j → slot_of (t.pcs i) ≢ some k)
  pub others : (i k : ℕ) → i ≢ j → slot_of (t.pcs i) ≡ some k → m.slots k ≡ t.shared.slots k
  pub writes : Written m.slots pc
  pub keeps :
      (k : ℕ)
      → (m.slots k ≡ start k)
        ⊎ ((slot_of pc ≡ some k) ⊎ ((i : ℕ) × (i ≢ j) × (slot_of (t.pcs i) ≡ some k)))

-- The thread `j` has moved; the others are where they were.
pub Moves-Owned :
    (start : ℕ → Socket) (t : Threads) (j : ℕ) (m : Shared) (pc : Pc)
    → Owned start t
    → Moves start t j m pc
    → Owned start (record { shared = m; pcs = update_pc t.pcs j pc })
Moves-Owned start t j m pc o v = record {
  was_free = λ i k. free i k;
  one_owner = λ a b k. one a b k;
  written = λ i. all_written i;
  kept = λ k. all_kept k;
}
  where
    mine : {A : Type 0} (P : Pc → A) → P (update_pc t.pcs j pc j) ≡ P pc
    mine P = rw (==_self j) refl

    theirs :
        {A : Type 0} (P : Pc → A) (i : ℕ)
        → (i == j) ≡ false
        → P (update_pc t.pcs j pc i) ≡ P (t.pcs i)
    theirs P i e = rw e refl

    free :
        (i k : ℕ)
        → slot_of (update_pc t.pcs j pc i) ≡ some k
        → (is (start k).type invalid ≡ true) × ((m.slots k).type ≡ reserve)
    free i k h = elim (eq_or_not i j) [
      | inl e ↦ let (a, b, c) = v.owns k (sym (mine slot_of) ∙ rw e at h) in (a, b)
      | inr (e, ne) ↦
          let h' = sym (theirs slot_of i e) ∙ h in
          let (a, b) = o.was_free i k h' in (a, ap (λ s. s.type) (v.others i k ne h') ∙ b)
    ]

    one :
        (a b k : ℕ)
        → slot_of (update_pc t.pcs j pc a) ≡ some k
        → slot_of (update_pc t.pcs j pc b) ≡ some k
        → a ≡ b
    one a b k ha hb = elim (eq_or_not a j) [
      | inl ea ↦ elim (eq_or_not b j) [
        | inl eb ↦ ea ∙ sym eb
        | inr (fb, nb) ↦
            let (x, y, alone) = v.owns k (sym (mine slot_of) ∙ rw ea at ha) in
            absurd (alone b nb (sym (theirs slot_of b fb) ∙ hb))
      ]
      | inr (fa, na) ↦ elim (eq_or_not b j) [
        | inl eb ↦
            let (x, y, alone) = v.owns k (sym (mine slot_of) ∙ rw eb at hb) in
            absurd (alone a na (sym (theirs slot_of a fa) ∙ ha))
        | inr (fb, nb) ↦
            o.one_owner a b k (sym (theirs slot_of a fa) ∙ ha) (sym (theirs slot_of b fb) ∙ hb)
      ]
    ]

    all_written : (i : ℕ) → Written m.slots (update_pc t.pcs j pc i)
    all_written i = elim (eq_or_not i j) [
      | inl e ↦ rw (e, ==_self j) v.writes
      | inr (e, ne) ↦
          rw e (
            Written-agree t.shared.slots m.slots (t.pcs i) (λ k h. v.others i k ne h) (o.written i))
    ]

    all_kept :
        (k : ℕ) → (m.slots k ≡ start k) ⊎ ((i : ℕ) × (slot_of (update_pc t.pcs j pc i) ≡ some k))
    all_kept k = elim (v.keeps k) [
      | inl e ↦ inl e
      | inr (inl e) ↦ inr (j, mine slot_of ∙ e)
      | inr (inr (i, ne, e)) ↦ inr (
        i,
        elim (eq_or_not i j) [ inl same ↦ absurd (ne same) | inr (f, _) ↦ theirs slot_of i f ∙ e ],
      )
    ]
