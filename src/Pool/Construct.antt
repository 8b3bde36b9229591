-- ===== src/Pool/Construct.antt =====
-- core/thread_pool.h: the constructor, where the system may refuse a thread, and the threads made so
-- far take their steps meanwhile.
use canna.Prelude.{
  tally, tally-append, inl, inr, Bool-cases, ℕ, zero, suc, ◌+◌, ◌≤◌, ◌<◌, ◌≡◌, refl, sym, ap, subst,
  ◌∙◌, true, false, List, [], ◌∷◌, ◌++◌, arith, if◌then◌else◌, ltb, length, length-snoc, replicate,
  replicate-snoc,
}
use canna.Pool.{
  Worker, testing, popping, holding, running, gone, ThreadPool, Action, works, try_pop, new_pool,
  destroy, work, work_at, act, run,
}
use canna.Pool.Order.{in_hand}
use canna.Pool.Stop.{turns, rank_at, run_joins}

-- What happens next: a thread is made, or cannot be made, or one takes a step.
pub data Making : Type 0 where
  makes refused : Making
  steps : ℕ → Making

-- Whether the constructor has ended, and how.
pub data Constructed : Type 0 where
  built threw building : Constructed

unfoldable pub thread_count : ℕ → ℕ
thread_count hardware = if ltb hardware 2 then 2 else hardware

module _ {Task : Type 0} where
  abbrev pub no_threads : ThreadPool Task
  no_threads = record { done = false; queue = []; workers = []; popped = []; started = [] }

  -- The loop of `ThreadPool()`, for the threads that are still to be made.
  unfoldable pub make_threads : ℕ → List Making → ThreadPool Task → ThreadPool Task × Constructed
  make_threads zero making p = (p, built)
  make_threads (suc n) [] p = (p, building)
  make_threads (suc n) (makes ∷ making) p =
      make_threads n making (record p { workers = p.workers ++ testing ∷ [] })
  make_threads (suc n) (refused ∷ making) p = (destroy p, threw)
  make_threads (suc n) (steps i ∷ making) p = make_threads (suc n) making (act (works i) p)

  unfoldable pub construct : ℕ → List Making → ThreadPool Task × Constructed
  construct hardware making = make_threads (thread_count hardware) making no_threads

  made : ℕ → ThreadPool Task
  made m = record {
    done = false;
    queue = [];
    workers = replicate m testing;
    popped = [];
    started = [];
  }

  make_threads-makes :
      (n m : ℕ) → make_threads n (replicate n makes) (made m) ≡ (made (m + n), built)
  unfolding make_threads made
  make_threads-makes zero m = ap (λ k. (made k, built)) (omega arith)
  make_threads-makes (suc n) m =
      ap (λ l. make_threads n (replicate n makes) (record (made m) { workers = l }))
        (replicate-snoc m testing)
      ∙ make_threads-makes n (suc m)
      ∙ ap (λ k. (made k, built)) (omega arith)

  -- No task waits, and none has been taken or started.
  abbrev IsIdle : ThreadPool Task → Type 0
  IsIdle p = (p.queue ≡ []) × (p.popped ≡ []) × (p.started ≡ [])

  -- No thread has a task in hand.
  abbrev NoneHolds : List (Worker Task) → Type 0
  NoneHolds ws = tally (in_hand (λ _. 1)) ws ≡ 0

  work-IsIdle :
      (p : ThreadPool Task) (w : Worker Task)
      → IsIdle p
      → in_hand (λ _. 1) w ≡ 0
      → IsIdle (work p w).0 × (in_hand (λ _. 1) (work p w).1 ≡ 0)
  unfolding work try_pop
  work-IsIdle p testing h e = elim (Bool-cases p.done) [
    | inl d ↦ rw d (h, refl)
    | inr d ↦ rw d (h, refl)
  ]
  work-IsIdle p popping h e = rw h.0 ((refl, h.1, h.2), refl)
  work-IsIdle p (holding task) h e = absurd (omega (arith, e))
  work-IsIdle p (running task) h e = (h, refl)
  work-IsIdle p gone h e = (h, refl)

  work_at-IsIdle :
      (i : ℕ) (p : ThreadPool Task) (ws : List (Worker Task))
      → IsIdle p
      → NoneHolds ws
      → IsIdle (work_at i p ws).0
        × NoneHolds (work_at i p ws).1
        × (length (work_at i p ws).1 ≡ length ws)
  unfolding work_at
  work_at-IsIdle i p [] h e = (h, e, refl)
  work_at-IsIdle zero p (w ∷ ws) h e =
      let (idle, free) = work-IsIdle p w h (omega (arith, e)) in
      (idle, omega (arith, free, e), refl)
  work_at-IsIdle (suc i) p (w ∷ ws) h e =
      let (idle, free, same) = work_at-IsIdle i p ws h (omega (arith, e)) in
      (idle, omega (arith, free, e), ap suc same)

  -- The threads made, and those still to be made, while a pool is built; what a refused thread leaves.
  make_threads-threw :
      (n : ℕ) (making : List Making) (p : ThreadPool Task) {q : ThreadPool Task}
      → IsIdle p
      → NoneHolds p.workers
      → make_threads n making p ≡ (q, threw)
      → (q.done ≡ true) × IsIdle q × (length q.workers < length p.workers + n)
  unfolding make_threads act destroy
  make_threads-threw zero making p h free e = absurd (let f = ap (λ r. r.1) e in cc)
  make_threads-threw (suc n) [] p h free e = absurd (let f = ap (λ r. r.1) e in cc)
  make_threads-threw (suc n) (makes ∷ making) p h free e =
      let (stops, idle, few) =
        make_threads-threw n making (record p { workers = p.workers ++ testing ∷ [] }) h
          (omega (arith, free, tally-append (in_hand (λ (t : Task). 1)) p.workers (testing ∷ [])))
          e in
      (stops, idle, omega (arith, few, length-snoc p.workers testing))
  make_threads-threw (suc n) (refused ∷ making) p h free e =
      let same = ap (λ r. r.0) e in
      (
        sym (ap (λ (r : ThreadPool Task). r.done) same),
        subst IsIdle same h,
        subst (λ (r : ThreadPool Task). length r.workers < length p.workers + suc n) same
            (omega arith),
      )
  make_threads-threw (suc n) (steps i ∷ making) p h free e =
      let (idle, free', kept) = work_at-IsIdle i p p.workers h free in
      let (stops, idle', few) = make_threads-threw (suc n) making (act (works i) p) idle free' e in
      (stops, idle', omega (arith, few, kept))

  -- Where the system refuses no thread, the constructor makes the pool as `new_pool` has it.
  pub construct-new_pool :
      (hardware : ℕ)
      → construct hardware (replicate (thread_count hardware) makes) ≡ (new_pool hardware, built)
  unfolding construct thread_count new_pool made
  construct-new_pool hardware =
      make_threads-makes (thread_count hardware) 0 ∙ ap (λ k. (made k, built)) (omega arith)

  -- Where the system refuses a thread, whatever steps the threads made so far have taken, the
  -- constructor throws with fewer threads than it wanted, `m_done` set and no task started; and each
  -- of these threads has left its loop after at most four turns, so that they can be joined.
  pub construct-threw :
      (hardware : ℕ) (making : List Making) {p : ThreadPool Task} (i : ℕ)
      (actions : List (Action Task))
      → construct hardware making ≡ (p, threw)
      → 4 ≤ turns i actions
      → (p.started ≡ [])
        × (length p.workers < thread_count hardware)
        × (rank_at i (run actions p).workers ≡ 0)
  unfolding construct
  construct-threw hardware making {p} i actions e many =
      let (stops, idle, few) =
        make_threads-threw (thread_count hardware) making no_threads (refl, refl, refl) refl e in
      (idle.2, omega (arith, few), run_joins i actions p stops many)
