-- ===== src/Socket/Race.antt =====
-- gateserver/socket_server.cpp: reserve_id, while several threads run it at once. A step of a
-- thread is one access to what they share: the counter `alloc_id`, or a field of a slot.
pub mod Owners
pub mod Steps
pub mod Alone
mod Tests
use canna.Prelude.{
  ℕ, zero, suc, ◌+◌, ◌%◌, ◌^◌, Bool, true, false, List, [], ◌∷◌, Option, none, some, if◌then◌else◌,
  ltb, ◌==◌,
}
use canna.Socket.Types.{invalid, reserve, is, hash_id, minus_one, max_socket, Socket}
use canna.Socket.Types.{update}

-- Where a thread is in `reserve_id`, with the rounds of its loop that are left.
pub data Pc : Type 0 where
  -- before `__sync_add_and_fetch`
  adds : (left : ℕ) → Pc
  -- before `__sync_and_and_fetch`, its id being negative
  masks : (left : ℕ) → Pc
  -- before the test of the type
  tests : (left id : ℕ) → Pc
  -- before `__sync_bool_compare_and_swap`
  swaps : (left id : ℕ) → Pc
  -- before `s->id = id`
  names : (id : ℕ) → Pc
  -- before `s->fd = -1`
  clears : (id : ℕ) → Pc
  returned : (id : ℕ) → Pc
  refused : Pc

-- What the threads share.
pub record Shared : Type 0 where
  pub alloc_id : ℕ
  pub slots : ℕ → Socket

-- The next step of a thread.
unfoldable pub thread_step : Shared → Pc → Shared × Pc
thread_step m (adds zero) = (m, refused)
thread_step m (adds (suc left)) =
    let id : ℕ = (m.alloc_id + 1) % 2 ^ 32 in
    (record m { alloc_id = id }, if ltb id (2 ^ 31) then tests left id else masks left)
thread_step m (masks left) =
    let id : ℕ = m.alloc_id % 2 ^ 31 in (record m { alloc_id = id }, tests left id)
thread_step m (tests left id) =
    (m, if is (m.slots (hash_id id)).type invalid then swaps left id else adds left)
thread_step m (swaps left id) =
    if is (m.slots (hash_id id)).type invalid
    then (
      record m {
        slots = update m.slots (hash_id id) (record (m.slots (hash_id id)) { type = reserve });
      },
      names id,
    )
    else (m, adds (suc left))
thread_step m (names id) = (
  record m { slots = update m.slots (hash_id id) (record (m.slots (hash_id id)) { id = id }) },
  clears id,
)
thread_step m (clears id) = (
  record m {
    slots = update m.slots (hash_id id) (record (m.slots (hash_id id)) { fd = minus_one });
  },
  returned id,
)
thread_step m (returned id) = (m, returned id)
thread_step m refused = (m, refused)

-- The threads by their numbers, and what they share.
pub record Threads : Type 0 where
  pub shared : Shared
  pub pcs : ℕ → Pc

abbrev pub update_pc : (ℕ → Pc) → ℕ → Pc → ℕ → Pc
update_pc pcs j pc i = if i == j then pc else pcs i

unfoldable pub step_of : ℕ → Threads → Threads
step_of j t =
    let r = thread_step t.shared (t.pcs j) in record { shared = r.0; pcs = update_pc t.pcs j r.1 }

-- The steps of the threads named, in order.
unfoldable pub run_threads : List ℕ → Threads → Threads
run_threads [] t = t
run_threads (j ∷ rest) t = run_threads rest (step_of j t)

-- All threads enter `reserve_id`.
unfoldable pub enter : ℕ → (ℕ → Socket) → Threads
enter alloc_id slots = record {
  shared = record { alloc_id = alloc_id; slots = slots };
  pcs = λ j. adds max_socket;
}
