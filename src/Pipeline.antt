-- ===== src/Pipeline.antt =====
-- example/ventilator.cpp, example/taskwork.cpp and example/tasksink.cpp: a ventilator pushes 100
-- workloads to any number of workers, which sleep for them and push a message each to the sink.
-- The ventilator also tells the sink to start. A message is on its way, to whichever process may
-- receive it, from the step that sends it to the step that receives it.
pub mod Message
pub mod Account
pub mod Ends
mod Tests
use canna.Prelude.{
  ℕ, zero, suc, ◌+◌, ◌-◌, ◌*◌, ◌/◌, ◌%◌, ◌^◌, ◌≡◌, ◌<◌, Bool, true, false, List, [], ◌∷◌, ◌++◌,
  Option, none, some, if◌then◌else◌, ltb, leb, ◌==◌, ◌&&◌, length, replicate,
}
use canna.Core.{digits}
use canna.Random.{random_below}

-- A message: ten cleared bytes, and `sprintf` of "%d" into them.
unfoldable pub task_message : ℕ → List ℕ
task_message workload =
    let text = digits false 10 10 workload in text ++ replicate (10 - length text) 0

-- `iss >> workload`, on a text that starts with a digit.
unfoldable pub read_int : ℕ → List ℕ → ℕ
read_int value [] = value
read_int value (c ∷ text) =
    let rest = read_int (value * 10 + (c - b'0')) text in
    if leb b'0' c && leb c b'9' then rest else value

-- A worker waits for a message, or sleeps for so many milliseconds.
pub data Worker : Type 0 where
  waits : Worker
  sleeps : (workload : ℕ) → Worker

-- The loop of the ventilator with the rounds left, its generator and `total`; the messages on their
-- way to the workers; the workers; the milliseconds slept; the messages on their way to the sink,
-- how many it has received, and what it has printed.
pub record Line : Type 0 where
  pub rounds_left : ℕ
  pub seed : ℕ
  pub total : ℕ
  pub tasks : List (List ℕ)
  pub workers : List Worker
  pub slept : ℕ
  pub results : ℕ
  pub received : ℕ
  pub out : List ℕ

abbrev pub task_count : ℕ
task_count = 100

-- A round of the ventilator's loop, with so many rounds left behind it.
unfoldable pub send_task : ℕ → Line → Line
send_task left l =
    let workload = (random_below l.seed 100).1 + 1 in
    record l {
      rounds_left = left;
      seed = (random_below l.seed 100).0;
      total = (l.total + workload) % 2 ^ 32;
      tasks = l.tasks ++ task_message workload ∷ [];
    }

-- What the sink prints for its task of this number: ':' or '.'.
unfoldable pub mark : ℕ → ℕ
mark task_nbr = if task_nbr / 10 * 10 == task_nbr then b':' else b'.'

-- The sink receives the message to start, or one of its 100 tasks.
unfoldable pub collect : ℕ → Line → Line
collect left l = record l {
  results = left;
  received = l.received + 1;
  out = if l.received == 0 then l.out else l.out ++ mark (l.received - 1) ∷ [];
}

-- What can happen: the ventilator sends, a worker receives a message, a worker has slept, or the
-- sink receives.
pub data Step (l : Line) : Line → Type 0 where
  sends : (left : ℕ) → l.rounds_left ≡ suc left → Step l (send_task left l)
  takes :
      (before after : List (List ℕ)) (message : List ℕ) (front back : List Worker)
      → l.tasks ≡ before ++ message ∷ after
      → l.workers ≡ front ++ waits ∷ back
      → Step l (record l {
        tasks = before ++ after;
        workers = front ++ sleeps (read_int 0 message) ∷ back;
      })
  wakes :
      (front back : List Worker) (workload : ℕ)
      → l.workers ≡ front ++ sleeps workload ∷ back
      → Step l (record l {
        workers = front ++ waits ∷ back;
        slept = l.slept + workload;
        results = l.results + 1;
      })
  collects :
      (left : ℕ) → l.results ≡ suc left → l.received < task_count + 1 → Step l (collect left l)

-- The message to start is on its way; `total` holds whatever its memory held.
unfoldable pub begun : (seed garbage workers : ℕ) → Line
begun seed garbage workers = record {
  rounds_left = task_count;
  seed = seed;
  total = garbage;
  tasks = [];
  workers = replicate workers waits;
  slept = 0;
  results = 1;
  received = 0;
  out = [];
}

-- So many steps.
pub data Runs (l : Line) : ℕ → Line → Type 0 where
  begins : Runs l zero l
  next : {n : ℕ} {m k : Line} → Runs l n m → Step m k → Runs l (suc n) k

-- The end of the sink: the time between two readings of a clock that is not set back, in seconds
-- and microseconds, in milliseconds.
unfoldable pub elapsed : ℕ × ℕ → ℕ × ℕ → ℕ
elapsed (start_sec, start_usec) (end_sec, end_usec) =
    if ltb end_usec start_usec
    then (end_sec - start_sec - 1) * 1000 + (1000000 + end_usec - start_usec) / 1000
    else (end_sec - start_sec) * 1000 + (end_usec - start_usec) / 1000
