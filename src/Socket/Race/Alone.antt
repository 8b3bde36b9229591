-- ===== src/Socket/Race/Alone.antt =====
-- A thread that is alone in `reserve_id` does what Socket/Slots says.
use canna.Prelude.{
  ℕ, zero, suc, ◌+◌, ◌*◌, ◌%◌, ◌^◌, ◌≡◌, ◌≤◌, ◌⊎◌, refl, ap, ◌∙◌, fun_ext, inl, inr, true, Option,
  none, some, arith, ltb, ◌==◌, Bool-cases, ==_self,
}
use canna.Socket.Types.{
  invalid, reserve, is, hash_id, minus_one, max_socket, Socket, Server, update,
}
use canna.Socket.Slots.{next_id, reserve_loop, reserve_id}
use canna.Socket.Race.{Pc, adds, tests, swaps, names, returned, refused, Shared, thread_step}

-- So many steps of one thread.
abbrev pub alone : ℕ → Shared → Pc → Shared × Pc
alone zero m pc = (m, pc)
alone (suc n) m pc = let r = thread_step m pc in alone n r.0 r.1

-- What the threads share of the server, and where a thread ends.
abbrev pub shared_of : Server → Shared
shared_of s = record { alloc_id = s.alloc_id; slots = s.slots }

abbrev pub end_of : Option ℕ → Pc
end_of none = refused
end_of (some id) = returned id

-- Three writes into one slot.
update_thrice :
    (slots : ℕ → Socket) (k : ℕ) (f g h : Socket → Socket)
    → let one = update slots k (f (slots k)) in
      let two = update one k (g (one k)) in
      update two k (h (two k)) ≡ update slots k (h (g (f (slots k))))
update_thrice slots k f g h = fun_ext (λ j. at j)
  where
    at :
        (j : ℕ)
        → let one = update slots k (f (slots k)) in
          let two = update one k (g (one k)) in
          update two k (h (two k)) j ≡ update slots k (h (g (f (slots k)))) j
    at j = rw (==_self k) (elim (Bool-cases (j == k)) [ inl e ↦ rw e refl | inr e ↦ rw e refl ])

alone-thread_step :
    (n : ℕ) (m : Shared) (pc : Pc) (m' : Shared) (pc' : Pc)
    → thread_step m pc ≡ (m', pc')
    → alone (suc n) m pc ≡ alone n m' pc'
alone-thread_step n m pc m' pc' e = rw e refl

-- From the test of a free slot on, a thread that is alone gets it.
alone_wins :
    (left id : ℕ) (m : Shared)
    → let k = hash_id id in
      is (m.slots k).type invalid ≡ true
      → alone 4 m (tests left id) ≡ (
        record m {
          slots = update m.slots k (record (m.slots k) { type = reserve; id = id; fd = minus_one });
        },
        returned id,
      )
unfolding thread_step
alone_wins left id m free =
    let k : ℕ = hash_id id in
    let won : Shared = record m {
      slots = update m.slots k (record (m.slots k) { type = reserve });
    } in
    alone-thread_step 3 m (tests left id) m (swaps left id) (rw free refl)
    ∙ alone-thread_step 2 m (swaps left id) won (names id) (rw free refl)
    ∙ ap (λ (slots : ℕ → Socket). (record m { slots = slots }, returned id))
        (update_thrice m.slots k (λ c. record c { type = reserve }) (λ c. record c { id = id })
          (λ c. record c { fd = minus_one }))

-- From a place in the loop, within so many steps, a thread that is alone ends with this outcome.
abbrev EndsWith : ℕ → Shared → Pc → Server × Option ℕ → Type 0
EndsWith bound m pc r = (n : ℕ) × (n ≤ bound) × (alone n m pc ≡ (shared_of r.0, end_of r.1))

-- From the test of the type on.
tests-reserve_loop :
    (left : ℕ) (s : Server)
    → EndsWith
        (3 * left + 3)
        (shared_of (record s { alloc_id = next_id s.alloc_id }))
        (adds left)
        (reserve_loop left (record s { alloc_id = next_id s.alloc_id }))
    → EndsWith
        (3 * left + 4)
        (shared_of (record s { alloc_id = next_id s.alloc_id }))
        (tests left (next_id s.alloc_id))
        (reserve_loop (suc left) s)
unfolding reserve_loop
tests-reserve_loop left s (n, few, later) =
    let id : ℕ = next_id s.alloc_id in
    let m : Shared = shared_of (record s { alloc_id = id }) in
    elim (Bool-cases (is (s.slots (hash_id id)).type invalid)) [
      | inl free ↦ (4, omega arith, rw free (alone_wins left id m free))
      | inr used ↦ (
        suc n,
        omega (arith, few),
        rw used (
            alone-thread_step n m (tests left id) m (adds left) (unfold thread_step in rw used refl)
            ∙ later),
      )
    ]

-- The id is negative, and masked, or it is not; what follows is the same.
alone_adds :
    (left n : ℕ) (s : Server) (r : Shared × Pc)
    → alone n
        (shared_of (record s { alloc_id = next_id s.alloc_id }))
        (tests left (next_id s.alloc_id))
      ≡ r
    → (alone (suc n) (shared_of s) (adds (suc left)) ≡ r)
      ⊎ (alone (suc (suc n)) (shared_of s) (adds (suc left)) ≡ r)
unfolding thread_step
alone_adds left n s r later = elim (Bool-cases (ltb ((s.alloc_id + 1) % 2 ^ 32) (2 ^ 31))) [
  | inl positive ↦ inl (rw (alone, thread_step, positive) (rw positive at later))
  | inr negative ↦ inr (rw (alone, thread_step, negative) (rw negative at later))
]

alone-reserve_loop :
    (left : ℕ) (s : Server)
    → EndsWith (3 * left + 3) (shared_of s) (adds left) (reserve_loop left s)
alone-reserve_loop zero s = (1, omega arith, unfold reserve_loop thread_step in refl)
alone-reserve_loop (suc left) s =
    let counted : Server = record s { alloc_id = next_id s.alloc_id } in
    let (n, few, later) = tests-reserve_loop left s (alone-reserve_loop left counted) in
    elim (alone_adds left n s _ later) [
      | inl made ↦ (suc n, omega (arith, few), made)
      | inr made ↦ (suc (suc n), omega (arith, few), made)
    ]

-- A thread that is alone in `reserve_id` ends after at most 196611 accesses to the slots and the
-- counter, with the result of the model of `reserve_id`, and leaves the slots and the counter as
-- that does.
pub alone-reserve_id :
    (s : Server)
    → (n : ℕ) × (n ≤ 196611)
      × (alone n (shared_of s) (adds max_socket)
          ≡ (shared_of (reserve_id s).0, end_of (reserve_id s).1))
unfolding reserve_id
alone-reserve_id s = alone-reserve_loop max_socket s
