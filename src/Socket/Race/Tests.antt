-- ===== src/Socket/Race/Tests.antt =====
-- Threads that race for slots at concrete inputs.
use canna.Prelude.{ℕ, ◌≡◌, ◌≤◌, refl, List, [], ◌∷◌}
use canna.Socket.Types.{invalid, max_socket, Socket}
use canna.Socket.Slots.{reserve_id}
use canna.Socket.Race.{adds, returned, thread_step, step_of, run_threads, enter}
use canna.Socket.Race.Owners.{Owned}
use canna.Socket.Race.Steps.{run_threads-Owned}
use canna.Socket.Race.Alone.{alone, shared_of, end_of, alone-reserve_id}
use canna.Socket.Api.{initialize}

abbrev free_slots : ℕ → Socket
free_slots _ = record {
  opaque = 0;
  high = [];
  low = [];
  wb_size = 0;
  fd = 0;
  id = 0;
  protocol = 0;
  type = invalid;
  size = 0;
}

-- The counter wraps around in both threads, so that both get the id 1; one loses the race for its
-- slot and goes on to the next.
abbrev order : List ℕ
order = 0 ∷ 1 ∷ 0 ∷ 1 ∷ 0 ∷ 1 ∷ 0 ∷ 1 ∷ 0 ∷ 0 ∷ 1 ∷ 1 ∷ 1 ∷ 1 ∷ 1 ∷ []

first_test : (run_threads order (enter 0x7fffffff free_slots)).pcs 0 ≡ returned 1
unfolding run_threads step_of thread_step enter
first_test = refl

second_test : (run_threads order (enter 0x7fffffff free_slots)).pcs 1 ≡ returned 2
unfolding run_threads step_of thread_step enter
second_test = refl

run_threads-Owned_example : Owned free_slots (run_threads order (enter 0x7fffffff free_slots))
run_threads-Owned_example = run_threads-Owned order 0x7fffffff free_slots

alone-reserve_id_example :
    (n : ℕ) × (n ≤ 196611)
    × (alone n (shared_of (initialize free_slots)) (adds max_socket) ≡ (
      shared_of (reserve_id (initialize free_slots)).0,
      end_of (reserve_id (initialize free_slots)).1,
    ))
alone-reserve_id_example = alone-reserve_id (initialize free_slots)
