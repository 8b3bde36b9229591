-- ===== src/Pool/Tests.antt =====
-- The pool at concrete sequences of actions.
use canna.Prelude.{
  tally, ℕ, ◌+◌, ◌≤◌, ◌<◌, ◌≡◌, ◌⊎◌, replicate, refl, true, List, [], ◌∷◌, ◌++◌, arith, length,
}
use canna.Pool.{
  popping, ThreadPool, Action, submits, works, push, try_pop, wait_and_pop, new_pool, submit,
  destroy, work, work_at, act, run,
}
use canna.Pool.Order.{in_hand, run-submitted}
use canna.Pool.Blocked.{
  Turn, pushes, calls, tries, resumes, turn, turns, notify_one, pop_or_wait, pop_or_fail, nobody,
  turns-woken,
}
use canna.Pool.Construct.{makes, refused, steps, threw, construct, thread_count, construct-threw}
use canna.Pool.Stop.{poppers, rank_at, run_stops, run_joins}

-- Two threads, and three tasks of which the second thread takes the first.
abbrev busy : List (Action ℕ)
busy = submits 7 ∷ submits 8 ∷ works 1 ∷ works 1 ∷ works 1 ∷ submits 9 ∷ works 0 ∷ []

-- Both threads have taken a task, and the second starts its own first.
abbrev both : List (Action ℕ)
both = submits 7 ∷ submits 8 ∷ works 0 ∷ works 1 ∷ works 0 ∷ works 1 ∷ works 1 ∷ []

abbrev busy_pool : ThreadPool ℕ
busy_pool = run busy (new_pool 1)

busy_pool_starts : (busy_pool.started ≡ 7 ∷ []) × (busy_pool.queue ≡ 8 ∷ 9 ∷ [])
unfolding run act submit push destroy work work_at try_pop new_pool
busy_pool_starts = (refl, refl)

-- The destructor was called while one thread had passed its test.
abbrev stopping : ThreadPool ℕ
stopping = destroy busy_pool

abbrev rest_of_it : List (Action ℕ)
rest_of_it = works 0 ∷ works 0 ∷ works 1 ∷ works 0 ∷ works 0 ∷ works 1 ∷ []

run-submitted_example :
    let p = run both (new_pool 1) in
    (p.popped ++ p.queue ≡ 7 ∷ 8 ∷ [])
    × (tally (λ t. t) p.started + tally (in_hand (λ t. t)) p.workers ≡ tally (λ t. t) p.popped)
run-submitted_example = run-submitted 1 both (λ t. t)

both_starts : (run both (new_pool 1)).started ≡ 8 ∷ []
unfolding run act submit push work work_at try_pop new_pool
both_starts = refl

stopping_done : stopping.done ≡ true
unfolding destroy
stopping_done = refl

run_stops_test :
    length (run rest_of_it stopping).started ≤ length stopping.started + poppers stopping.workers
run_stops_test = run_stops rest_of_it stopping stopping_done

run_joins_example : rank_at 0 (run rest_of_it stopping).workers ≡ 0
run_joins_example = run_joins 0 rest_of_it stopping stopping_done (omega arith)

-- Two callers wait, one value comes, and another caller gets it before the one that was woken.
abbrev stolen : List (Turn ℕ)
stolen = calls ∷ calls ∷ pushes 7 ∷ tries ∷ pushes 8 ∷ resumes ∷ []

stolen_ends : turns stolen nobody ≡ record { queue = []; asleep = 0; woken = 1; given = 7 ∷ 8 ∷ [] }
unfolding turns turn notify_one pop_or_wait pop_or_fail nobody push try_pop wait_and_pop
stolen_ends = refl

turns-woken_example :
    let w = turns stolen nobody in
    let t = turns (replicate w.woken resumes) w in
    ((t.asleep ≡ 0) ⊎ (t.queue ≡ []))
    × (w.given ++ w.queue ≡ 7 ∷ 8 ∷ [])
    × (t.given ++ t.queue ≡ 7 ∷ 8 ∷ [])
turns-woken_example = turns-woken stolen

-- Of four threads, the second cannot be made, when the first has passed its test.
abbrev one_thread : ThreadPool ℕ
one_thread = record { done = true; queue = []; workers = popping ∷ []; popped = []; started = [] }

one_thread_threw : construct 4 (makes ∷ steps 0 ∷ refused ∷ []) ≡ (one_thread, threw)
unfolding construct thread_count canna.Pool.Construct.make_threads act work_at work destroy
one_thread_threw = refl

construct-threw_example :
    (one_thread.started ≡ [])
    × (length one_thread.workers < thread_count 4)
    × (rank_at 0 (run (works 0 ∷ works 0 ∷ works 0 ∷ works 0 ∷ []) one_thread).workers ≡ 0)
construct-threw_example =
    construct-threw 4 (makes ∷ steps 0 ∷ refused ∷ []) 0
      (works 0 ∷ works 0 ∷ works 0 ∷ works 0 ∷ []) one_thread_threw (omega arith)
