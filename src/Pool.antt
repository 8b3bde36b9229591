-- ===== src/Pool.antt =====
-- core/thread_safe_queue.h and thread_pool.h: the queue of tasks, and the workers that take from it
-- one step at a time. Each operation of the queue holds its mutex, so it is one step.
pub mod Order
pub mod Stop
pub mod Blocked
pub mod Construct
mod Tests
use canna.Prelude.{
  ℕ, zero, suc, ◌+◌, Bool, true, false, List, [], ◌∷◌, ◌++◌, Option, none, some, if◌then◌else◌, ltb,
  replicate,
}

-- `push`
unfoldable pub push {ℓ} : {A : Type ℓ} → A → List A → List A
push value q = q ++ value ∷ []

-- `try_pop`, in both forms: the value and the rest, `none` where the queue is empty.
unfoldable pub try_pop {ℓ} : {A : Type ℓ} → List A → Option (A × List A)
try_pop [] = none
try_pop (value ∷ q) = some (value, q)

-- `wait_and_pop`, in both forms: `none` while the caller waits.
unfoldable pub wait_and_pop {ℓ} : {A : Type ℓ} → List A → Option (A × List A)
wait_and_pop [] = none
wait_and_pop (value ∷ q) = some (value, q)

-- Where a thread stands in `work`: before the test of `m_done`, before `try_pop`, behind it with the
-- task that it got, in its task, or behind the loop.
pub data Worker (Task : Type 0) : Type 0 where
  testing popping gone : Worker Task
  holding running : Task → Worker Task

-- `class ThreadPool`, with the tasks that were taken from the queue and those that were started so
-- far, each in order.
pub record ThreadPool (Task : Type 0) : Type 0 where
  pub done : Bool
  pub queue : List Task
  pub workers : List (Worker Task)
  pub popped : List Task
  pub started : List Task

-- What happens next: a call of `submit`, the destructor, or a step of a thread.
pub data Action (Task : Type 0) : Type 0 where
  submits : Task → Action Task
  destroys : Action Task
  works : ℕ → Action Task

module _ {Task : Type 0} where
  -- `ThreadPool()`, where every thread is made; `hardware` is `hardware_concurrency()`.
  unfoldable pub new_pool : ℕ → ThreadPool Task
  new_pool hardware = record {
    done = false;
    queue = [];
    workers = replicate (if ltb hardware 2 then 2 else hardware) testing;
    popped = [];
    started = [];
  }

  -- `submit`
  unfoldable pub submit : Task → ThreadPool Task → ThreadPool Task
  submit task p = record p { queue = push task p.queue }

  -- `~ThreadPool`, up to the joining of the threads.
  unfoldable pub destroy : ThreadPool Task → ThreadPool Task
  destroy p = record p { done = true }

  -- A step of a thread, as a change of its place in the loop and of the pool. The mutex is free
  -- between `try_pop` and the call of the task.
  unfoldable pub work : ThreadPool Task → Worker Task → ThreadPool Task × Worker Task
  work p testing = (p, if p.done then gone else popping)
  work p popping = elim (try_pop p.queue) [
    | none ↦ (p, testing)
    | some (task, rest) ↦ (record p { queue = rest; popped = p.popped ++ task ∷ [] }, holding task)
  ]
  work p (holding task) = (record p { started = p.started ++ task ∷ [] }, running task)
  work p (running task) = (p, testing)
  work p gone = (p, gone)

  -- The step of the thread `i` of those listed; nothing where there is no such thread.
  unfoldable pub work_at :
      ℕ → ThreadPool Task → List (Worker Task) → ThreadPool Task × List (Worker Task)
  work_at i p [] = (p, [])
  work_at zero p (w ∷ ws) = let (p', w') = work p w in (p', w' ∷ ws)
  work_at (suc i) p (w ∷ ws) = let (p', ws') = work_at i p ws in (p', w ∷ ws')

  unfoldable pub act : Action Task → ThreadPool Task → ThreadPool Task
  act (submits task) p = submit task p
  act destroys p = destroy p
  act (works i) p = let (p', ws) = work_at i p p.workers in record p' { workers = ws }

  unfoldable pub run : List (Action Task) → ThreadPool Task → ThreadPool Task
  run [] p = p
  run (a ∷ rest) p = run rest (act a p)
