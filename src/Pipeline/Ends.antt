-- ===== src/Pipeline/Ends.antt =====
-- The pipeline: what can happen next, the steps that are left, and how it ends.
use canna.Prelude.{
  ℕ, zero, suc, ◌+◌, ◌-◌, ◌*◌, ◌%◌, ◌^◌, ◌≡◌, ◌≤◌, ◌<◌, ◌⊎◌, refl, inl, inr, List, [], ◌∷◌, ◌++◌,
  length, length-append, replicate, arith, tally, tally-replaced, length-replicate, tally-Found,
  Found,
}
use canna.Random.{random_below}
use canna.Pipeline.{
  task_message, read_int, Worker, waits, sleeps, Line, task_count, send_task, collect, Step, sends,
  takes, wakes, collects, begun, Runs, begins, next,
}
use canna.Pipeline.Account.{to_sleep, is_busy, IsAccount, Step-IsAccount, removed, length-tally}

abbrev left : Line → ℕ
left l = l.rounds_left * 4 + length l.tasks * 3 + tally is_busy l.workers * 2 + l.results

Step-left : {l m : Line} → Step l m → 1 + left m ≡ left l
unfolding send_task collect
Step-left {l} (sends n e) =
    let message = task_message ((random_below l.seed 100).1 + 1) in
    omega (arith, e, length-append l.tasks (message ∷ []))
Step-left {l} (takes before after message front back e k) = omega (
  arith,
  removed (λ x. 1) l.tasks before after message e,
  length-tally l.tasks,
  length-tally (before ++ after),
  tally-replaced is_busy l.workers front back waits (sleeps (read_int 0 message)) k,
)
Step-left {l} (wakes front back workload k) =
    omega (arith, tally-replaced is_busy l.workers front back (sleeps workload) waits k)
Step-left (collects n e h) = omega (arith, e)

-- The sink has received its start and its tasks, nothing is on its way, and no worker sleeps; what
-- the workers slept is what the ventilator added to `total`.
pub record IsFinished (garbage : ℕ) (l : Line) : Type 0 where
  pub all_received : l.received ≡ task_count + 1
  pub all_sent : l.rounds_left ≡ 0
  pub no_tasks : length l.tasks ≡ 0
  pub no_results : l.results ≡ 0
  pub none_sleeps : tally is_busy l.workers ≡ 0
  pub counted : l.total ≡ (garbage + l.slept) % 2 ^ 32

idle_crew : (ws : List Worker) → tally is_busy ws ≡ 0 → tally to_sleep ws ≡ 0
idle_crew [] h = refl
idle_crew (waits ∷ ws) h = omega (arith, idle_crew ws (omega (arith, h)))
idle_crew (sleeps w ∷ ws) h = absurd (omega (arith, h))

no_messages : (tasks : List (List ℕ)) → length tasks ≡ 0 → tally (read_int 0) tasks ≡ 0
no_messages [] h = refl
no_messages (m ∷ tasks) h = absurd (omega (arith, h))

finished :
    {garbage workers : ℕ} (l : Line)
    → IsAccount garbage workers l
    → l.received ≡ task_count + 1
    → IsFinished garbage l
finished l v e = record {
  all_received = e;
  all_sent = omega (arith, e, v.everywhere);
  no_tasks = omega (arith, e, v.everywhere);
  no_results = omega (arith, e, v.everywhere);
  none_sleeps = omega (arith, e, v.everywhere);
  counted = omega (
    arith,
    v.counted,
    idle_crew l.workers (omega (arith, e, v.everywhere)),
    no_messages l.tasks (omega (arith, e, v.everywhere)),
  );
}

abbrev Moves : Line → Type 0
Moves l = (m : Line) × Step l m

zero_or : (n : ℕ) → (n ≡ 0) ⊎ ((k : ℕ) × (n ≡ suc k))
zero_or zero = inl refl
zero_or (suc n) = inr (n, refl)

wakes_one : (l : Line) → Found is_busy l.workers → Moves l
wakes_one l (front, waits, back, k, h) = absurd (omega (arith, h))
wakes_one l (front, sleeps w, back, k, h) = (_, wakes front back w k)

takes_one :
    (l : Line) (tasks : List (List ℕ)) (ws : List Worker)
    → l.tasks ≡ tasks
    → l.workers ≡ ws
    → 1 ≤ length tasks
    → 1 ≤ length ws
    → tally is_busy ws ≡ 0
    → Moves l
takes_one l [] ws e k h p b = absurd (omega (arith, h))
takes_one l (m ∷ rest) [] e k h p b = absurd (omega (arith, p))
takes_one l (m ∷ rest) (sleeps w ∷ ws) e k h p b = absurd (omega (arith, b))
takes_one l (m ∷ rest) (waits ∷ ws) e k h p b = (_, takes [] rest m [] ws e k)

progress :
    {garbage workers : ℕ} (l : Line)
    → 1 ≤ workers
    → IsAccount garbage workers l
    → IsFinished garbage l ⊎ Moves l
progress l some_ v = elim (zero_or (task_count + 1 - l.received)) [
  | inl e ↦ inl (finished l v (omega (arith, e, v.everywhere)))
  | inr (k, more) ↦ inr (elim (zero_or l.rounds_left) [
    | inr (n, e) ↦ (_, sends n e)
    | inl none_left ↦ elim (zero_or l.results) [
      | inr (n, e) ↦ (_, collects n e (omega (arith, more)))
      | inl none_done ↦ elim (tally-Found is_busy l.workers) [
        | inr found ↦ wakes_one l found
        | inl idle ↦
            takes_one l l.tasks l.workers refl refl
              (omega (arith, more, none_left, none_done, idle, v.everywhere))
              (omega (arith, v.crew, some_)) idle
      ]
    ]
  ])
]

no_busy :
    (n : ℕ) → (tally is_busy (replicate n waits) ≡ 0) × (tally to_sleep (replicate n waits) ≡ 0)
no_busy zero = (refl, refl)
no_busy (suc n) = let (a, b) = no_busy n in (omega (arith, a), omega (arith, b))

begun-IsAccount :
    (seed garbage workers : ℕ)
    → garbage < 2 ^ 32
    → IsAccount garbage workers (begun seed garbage workers)
unfolding begun
begun-IsAccount seed garbage workers h =
    let (a, b) = no_busy workers in
    record {
      everywhere = omega (arith, a);
      crew = length-replicate workers waits;
      counted = omega (arith, b, h);
    }

Runs-kept :
    {garbage workers : ℕ} {l m : Line} {n : ℕ}
    → IsAccount garbage workers l
    → Runs l n m
    → IsAccount garbage workers m × (n + left m ≡ left l)
Runs-kept v begins = (v, omega arith)
Runs-kept v (next r s) =
    let (w, e) = Runs-kept v r in (Step-IsAccount w s, omega (arith, e, Step-left s))

-- With any number of workers but 0, whichever takes each message and in whatever order: there are
-- at most 401 steps, and after any number of steps either the sink has received its start and all
-- 100 tasks, nothing is on its way and no worker sleeps, and the milliseconds that the workers have
-- slept are those that the ventilator added to what `total` held at the start, in 32 bits; or a
-- further step can be taken.
pub Runs-IsFinished :
    (seed garbage workers : ℕ) {n : ℕ} {l : Line}
    → garbage < 2 ^ 32
    → 1 ≤ workers
    → Runs (begun seed garbage workers) n l
    → (n ≤ 401) × (IsFinished garbage l ⊎ ((m : Line) × Step l m))
unfolding begun
Runs-IsFinished seed garbage workers {l = l} h some_ r =
    let (v, e) = Runs-kept (begun-IsAccount seed garbage workers h) r in
    (omega (arith, e, (no_busy workers).0), progress l some_ v)
