-- ===== src/Socket/Reserve.antt =====
-- What reserve_id promises: a free slot under a fresh id, and a refusal only when no slot is free.
use canna.Prelude.{
  ℕ, zero, suc, ◌+◌, ◌-◌, ◌%◌, ◌^◌, ◌<◌, ◌≡◌, refl, sym, ◌∙◌, inl, inr, true, false, none, some,
  arith, Bool-cases, subst, some_inj, none-ne-some,
}
use canna.Socket.Types.{invalid, reserve, is, hash_id, minus_one, max_socket, Socket, Server, put}
use canna.Socket.Slots.{next_id, reserve_loop, reserve_id}

-- The socket in a slot that was just reserved.
abbrev pub reserved_socket : Socket → ℕ → Socket
reserved_socket sock id = record sock { type = reserve; id = id; fd = minus_one }

-- The server that `reserve_id` leaves where it finds a slot.
abbrev pub reserved : Server → ℕ → Server
reserved s id =
    put (record s { alloc_id = id }) (hash_id id) (reserved_socket (s.slots (hash_id id)) id)

pub next_id-lt : (a : ℕ) → next_id a < 2 ^ 31
next_id-lt a = ground arith

next_id-hash : (a : ℕ) → a < 2 ^ 31 → hash_id (next_id a) ≡ (a + 1) % max_socket
next_id-hash a h = ground arith

-- The server with the next id taken.
abbrev counted : Server → Server
counted s = record s { alloc_id = next_id s.alloc_id }

reserve_loop_free :
    (n : ℕ) (s : Server)
    → is (s.slots (hash_id (next_id s.alloc_id))).type invalid ≡ true
    → reserve_loop (suc n) s ≡ (reserved s (next_id s.alloc_id), some (next_id s.alloc_id))
unfolding reserve_loop
reserve_loop_free n s free = rw free refl

reserve_loop_used :
    (n : ℕ) (s : Server)
    → is (s.slots (hash_id (next_id s.alloc_id))).type invalid ≡ false
    → reserve_loop (suc n) s ≡ reserve_loop n (counted s)
unfolding reserve_loop
reserve_loop_used n s used = rw used refl

-- What a search that ended at `id` has found and done.
abbrev Found : Server → ℕ → Server → Type 0
Found s id t = (is (s.slots (hash_id id)).type invalid ≡ true) × (id < 2 ^ 31) × (t ≡ reserved s id)

reserve_loop-Found :
    (n : ℕ) (s : Server) (id : ℕ) → (reserve_loop n s).1 ≡ some id → Found s id (reserve_loop n s).0
reserve_loop-Found zero s id h = absurd (unfold reserve_loop in cc)
reserve_loop-Found (suc n) s id h =
    elim (Bool-cases (is (s.slots (hash_id (next_id s.alloc_id))).type invalid)) [
      | inl free ↦
          let e = reserve_loop_free n s free in
          let same : next_id s.alloc_id ≡ id = some_inj (rw e at h) in
          rw e (
            subst (λ (k : ℕ). Found s k (reserved s (next_id s.alloc_id))) same
              (free, next_id-lt s.alloc_id, refl))
      | inr used ↦
          let e = reserve_loop_used n s used in
          rw e (reserve_loop-Found n (counted s) id (rw e at h))
    ]

-- Where it fails: every slot that it tried is in use.
reserve_loop-none :
    (n : ℕ) (s : Server) (i : ℕ)
    → s.alloc_id < 2 ^ 31
    → (reserve_loop n s).1 ≡ none
    → i < n
    → is (s.slots ((s.alloc_id + 1 + i) % max_socket)).type invalid ≡ false
reserve_loop-none zero s i b h p = absurd (omega arith)
reserve_loop-none (suc n) s i b h p =
    elim (Bool-cases (is (s.slots (hash_id (next_id s.alloc_id))).type invalid)) [
      | inl free ↦ absurd (let e = rw (reserve_loop_free n s free) at h in cc)
      | inr used ↦ tried i p used (λ j q.
          reserve_loop-none n (counted s) j (next_id-lt s.alloc_id)
            (rw (reserve_loop_used n s used) at h) q)
    ]
  where
    is_used : ℕ → Type 0
    is_used k = is (s.slots k).type invalid ≡ false

    tried :
        (j : ℕ)
        → j < suc n
        → is_used (hash_id (next_id s.alloc_id))
        → ((m : ℕ) → m < n → is_used ((next_id s.alloc_id + 1 + m) % max_socket))
        → is_used ((s.alloc_id + 1 + j) % max_socket)
    tried zero q used rest = subst is_used (next_id-hash s.alloc_id b ∙ omega arith) used
    tried (suc j) q used rest =
        subst is_used (omega (arith, next_id-hash s.alloc_id b)) (rest j (omega arith))

reserve_loop_kept :
    (n : ℕ) (s : Server)
    → s.alloc_id < 2 ^ 31
    → (reserve_loop n s).1 ≡ none
    → ((reserve_loop n s).0 ≡ record s { alloc_id = (reserve_loop n s).0.alloc_id })
      × ((reserve_loop n s).0.alloc_id < 2 ^ 31)
reserve_loop_kept zero s b h = unfold reserve_loop in (refl, b)
reserve_loop_kept (suc n) s b h =
    elim (Bool-cases (is (s.slots (hash_id (next_id s.alloc_id))).type invalid)) [
      | inl free ↦ absurd (let e = rw (reserve_loop_free n s free) at h in none-ne-some (sym e))
      | inr used ↦
          let e = reserve_loop_used n s used in
          rw e (reserve_loop_kept n (counted s) (next_id-lt s.alloc_id) (rw e at h))
    ]

-- Where `reserve_id` gives up, only the id counter has moved, and it stays below 2 ^ 31.
pub reserve_id_kept :
    (s : Server)
    → s.alloc_id < 2 ^ 31
    → (reserve_id s).1 ≡ none
    → ((reserve_id s).0 ≡ record s { alloc_id = (reserve_id s).0.alloc_id })
      × ((reserve_id s).0.alloc_id < 2 ^ 31)
unfolding reserve_id
reserve_id_kept s b h = reserve_loop_kept max_socket s b h

-- Where `reserve_id` returns an id, it is not negative, its slot was free, and now only
-- that slot differs: it is reserved under the id, with no descriptor.
pub reserve_id_found :
    (s : Server) (id : ℕ)
    → (reserve_id s).1 ≡ some id
    → (is (s.slots (hash_id id)).type invalid ≡ true)
      × (id < 2 ^ 31)
      × ((reserve_id s).0 ≡ reserved s id)
unfolding reserve_id
reserve_id_found s id h = reserve_loop-Found max_socket s id h

-- `reserve_id` gives up only when no slot is free, also where the ids wrap around in its loop.
pub reserve_id_refuses :
    (s : Server) (k : ℕ)
    → s.alloc_id < 2 ^ 31
    → k < max_socket
    → (reserve_id s).1 ≡ none
    → is (s.slots k).type invalid ≡ false
unfolding reserve_id
reserve_id_refuses s k b p h =
    let steps : ℕ = (k + max_socket - (s.alloc_id + 1) % max_socket) % max_socket in
    let lands : (s.alloc_id + 1 + steps) % max_socket ≡ k = omega arith in
    subst (λ (j : ℕ). is (s.slots j).type invalid ≡ false) lands
      (reserve_loop-none max_socket s steps b h (omega arith))
