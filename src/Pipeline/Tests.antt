-- ===== src/Pipeline/Tests.antt =====
-- The pipeline at concrete inputs.
use canna.Prelude.{◌+◌, ◌*◌, ◌-◌, ◌/◌, ◌≡◌, ◌≤◌, ◌<◌, ◌⊎◌, refl, false, [], ◌∷◌, length, arith}
use canna.Core.{digits}
use canna.Random.{random_below}
use canna.Pipeline.{
  task_message, read_int, waits, Line, send_task, Step, sends, takes, wakes, collects, begun, Runs,
  begins, next, elapsed, collect, mark,
}
use canna.Pipeline.Message.{read_int-task_message, elapsed_lem}
use canna.Pipeline.Ends.{IsFinished, Runs-IsFinished}

message_test : task_message 100 ≡ b'1' ∷ b'0' ∷ b'0' ∷ 0 ∷ 0 ∷ 0 ∷ 0 ∷ 0 ∷ 0 ∷ 0 ∷ []
unfolding task_message digits
message_test = refl

read_int-task_message_test :
    (length (digits false 10 10 100) < 10)
    × (length (task_message 100) ≡ 10)
    × (read_int 0 (task_message 100) ≡ 100)
read_int-task_message_test = read_int-task_message 100 (omega arith)

-- From 3.900000 to 5.100500 there are 1200.5 milliseconds.
elapsed_lem_test :
    elapsed (3, 900000) (5, 100500) ≡ (5 * 1000000 + 100500 - (3 * 1000000 + 900000)) / 1000
elapsed_lem_test = elapsed_lem 3 900000 5 100500 (omega arith) (omega arith) (omega arith)

marks_test : (mark 0 ≡ b':') × (mark 9 ≡ b'.') × (mark 10 ≡ b':')
unfolding mark
marks_test = (refl, refl, refl)

-- The ventilator sends a task, one of two workers takes it and sleeps, and the sink hears of it.
abbrev after_one : (l : Line) × Runs (begun 5 77 2) 4 l
unfolding begun send_task collect
after_one = (
  _,
  next
      (next
        (next (next begins (sends 99 refl))
          (takes [] [] (task_message ((random_below 5 100).1 + 1)) [] (waits ∷ []) refl refl))
        (wakes [] (waits ∷ []) (read_int 0 (task_message ((random_below 5 100).1 + 1))) refl))
      (collects 1 refl (omega arith)),
)

Runs-IsFinished_example :
    (4 ≤ 401) × (IsFinished 77 after_one.0 ⊎ ((m : Line) × Step after_one.0 m))
Runs-IsFinished_example = Runs-IsFinished 5 77 2 (omega arith) (omega arith) after_one.1
