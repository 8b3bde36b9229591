-- ===== src/Pipeline/Account.antt =====
-- The account of the messages and of the milliseconds.
use canna.Prelude.{
  ℕ, ◌+◌, ◌%◌, ◌^◌, ◌≡◌, refl, ap, List, [], ◌∷◌, ◌++◌, length, length-append, arith, tally,
  tally-append, tally-replaced,
}
use canna.Random.{random_below}
use canna.Random.Bounds.{random_below-lt}
use canna.Pipeline.{
  task_message, read_int, Worker, waits, sleeps, Line, task_count, send_task, collect, Step, sends,
  takes, wakes, collects,
}
use canna.Pipeline.Message.{read_int-task_message}

-- The milliseconds that a worker still sleeps, and whether it sleeps.
abbrev pub to_sleep : Worker → ℕ
to_sleep waits = 0
to_sleep (sleeps workload) = workload

abbrev pub is_busy : Worker → ℕ
is_busy waits = 0
is_busy (sleeps workload) = 1

-- The milliseconds that were sent: slept, or still to be slept.
abbrev pub sent : Line → ℕ
sent l = l.slept + tally to_sleep l.workers + tally (read_int 0) l.tasks

-- Every message is somewhere, with the number of workers; `total` is what it held at the start and
-- all the milliseconds that were sent, in 32 bits.
pub record IsAccount (garbage workers : ℕ) (l : Line) : Type 0 where
  pub everywhere :
      l.rounds_left + length l.tasks + tally is_busy l.workers + l.results + l.received
      ≡ task_count + 1
  pub crew : length l.workers ≡ workers
  pub counted : l.total ≡ (garbage + sent l) % 2 ^ 32

pub removed :
    (f : List ℕ → ℕ) (xs before after : List (List ℕ)) (x : List ℕ)
    → xs ≡ before ++ x ∷ after
    → tally f (before ++ after) + f x ≡ tally f xs
removed f xs before after x e =
    let h = ap (tally f) e in
    omega (arith, h, tally-append f before (x ∷ after), tally-append f before after)

pub length-tally : {A : Type 0} (xs : List A) → length xs ≡ tally (λ x. 1) xs
length-tally [] = refl
length-tally (x ∷ xs) = omega (arith, length-tally xs)

-- A workload is between 1 and 100.
read_workload :
    (seed : ℕ)
    → read_int 0 (task_message ((random_below seed 100).1 + 1)) ≡ (random_below seed 100).1 + 1
read_workload seed =
    let (room, ten, same) =
      read_int-task_message ((random_below seed 100).1 + 1)
        (omega (arith, random_below-lt seed 100 (omega arith))) in
    same

pub Step-IsAccount :
    {garbage workers : ℕ} {l m : Line}
    → IsAccount garbage workers l
    → Step l m
    → IsAccount garbage workers m
unfolding send_task collect
Step-IsAccount {l = l} v (sends left e) =
    let message = task_message ((random_below l.seed 100).1 + 1) in
    record {
      everywhere = omega (arith, e, v.everywhere, length-append l.tasks (message ∷ []));
      crew = v.crew;
      counted = omega (
        arith,
        v.counted,
        tally-append (read_int 0) l.tasks (message ∷ []),
        read_workload l.seed,
      );
    }
Step-IsAccount {l = l} v (takes before after message front back e k) = record {
  everywhere = omega (
    arith,
    v.everywhere,
    removed (λ x. 1) l.tasks before after message e,
    length-tally l.tasks,
    length-tally (before ++ after),
    tally-replaced is_busy l.workers front back waits (sleeps (read_int 0 message)) k,
  );
  crew = omega (
    arith,
    v.crew,
    length-tally l.workers,
    length-tally (front ++ sleeps (read_int 0 message) ∷ back),
    tally-replaced (λ x. 1) l.workers front back waits (sleeps (read_int 0 message)) k,
  );
  counted = omega (
    arith,
    v.counted,
    removed (read_int 0) l.tasks before after message e,
    tally-replaced to_sleep l.workers front back waits (sleeps (read_int 0 message)) k,
  );
}
Step-IsAccount {l = l} v (wakes front back workload k) = record {
  everywhere =
      omega (
        arith,
        v.everywhere,
        tally-replaced is_busy l.workers front back (sleeps workload) waits k,
      );
  crew = omega (
    arith,
    v.crew,
    length-tally l.workers,
    length-tally (front ++ waits ∷ back),
    tally-replaced (λ x. 1) l.workers front back (sleeps workload) waits k,
  );
  counted =
      omega
        (arith, v.counted, tally-replaced to_sleep l.workers front back (sleeps workload) waits k);
}
Step-IsAccount v (collects left e h) = record {
  everywhere = omega (arith, e, v.everywhere);
  crew = v.crew;
  counted = v.counted;
}
