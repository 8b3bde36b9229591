-- ===== src/Pool/Stop.antt =====
-- What the destructor of the pool stops, and that the threads end.
use canna.Prelude.{
  ℕ, zero, suc, ◌+◌, ◌-◌, ◌≤◌, ◌≡◌, refl, inl, inr, true, List, [], ◌∷◌, arith, if◌then◌else◌, ◌==◌,
  length, length-snoc, List-cases,
}
use canna.Pool.{
  Worker, testing, popping, holding, running, gone, ThreadPool, Action, submits, destroys, works,
  try_pop, submit, destroy, work, work_at, act, run,
}

module _ {Task : Type 0} where
  -- The threads that are between the test of `m_done` and the start of a task.
  abbrev pub poppers : List (Worker Task) → ℕ
  poppers [] = 0
  poppers (popping ∷ ws) = suc (poppers ws)
  poppers (holding task ∷ ws) = suc (poppers ws)
  poppers (w ∷ ws) = poppers ws

  -- The tasks started, and those that may still be.
  abbrev limit : ThreadPool Task → List (Worker Task) → ℕ
  limit p ws = length p.started + poppers ws

  work-limit :
      (p : ThreadPool Task) (w : Worker Task) (ws : List (Worker Task))
      → p.done ≡ true
      → (limit (work p w).0 ((work p w).1 ∷ ws) ≤ limit p (w ∷ ws)) × ((work p w).0.done ≡ true)
  unfolding work try_pop
  work-limit p testing ws h = rw h (omega arith, refl)
  work-limit p popping ws h = elim (List-cases p.queue) [
    | inl e ↦ rw e (omega arith, h)
    | inr (task, rest, e) ↦ rw e (omega arith, h)
  ]
  work-limit p (holding task) ws h = (omega (arith, length-snoc p.started task), h)
  work-limit p (running task) ws h = (omega arith, h)
  work-limit p gone ws h = (omega arith, h)

  work_at-limit :
      (i : ℕ) (p : ThreadPool Task) (ws : List (Worker Task))
      → p.done ≡ true
      → (limit (work_at i p ws).0 (work_at i p ws).1 ≤ limit p ws)
        × ((work_at i p ws).0.done ≡ true)
  unfolding work_at
  work_at-limit i p [] h = (omega arith, h)
  work_at-limit zero p (w ∷ ws) h = work-limit p w ws h
  work_at-limit (suc i) p (popping ∷ ws) h =
      let (less, kept) = work_at-limit i p ws h in (omega arith, kept)
  work_at-limit (suc i) p (holding task ∷ ws) h =
      let (less, kept) = work_at-limit i p ws h in (omega arith, kept)
  work_at-limit (suc i) p (w ∷ ws) h = work_at-limit i p ws h

  run-limit :
      (actions : List (Action Task)) (p : ThreadPool Task)
      → p.done ≡ true
      → limit (run actions p) (run actions p).workers ≤ limit p p.workers
  unfolding run act submit destroy
  run-limit [] p h = omega arith
  run-limit (submits task ∷ rest) p h = run-limit rest (submit task p) h
  run-limit (destroys ∷ rest) p h = run-limit rest (destroy p) refl
  run-limit (works i ∷ rest) p h =
      let (less, kept) = work_at-limit i p p.workers h in
      omega (arith, run-limit rest (act (works i) p) kept)

  -- Once the destructor has set `m_done`, each thread starts at most one more task, and only if it
  -- had passed the test before: the other tasks are dropped.
  pub run_stops :
      (actions : List (Action Task)) (p : ThreadPool Task)
      → p.done ≡ true
      → length (run actions p).started ≤ length p.started + poppers p.workers
  run_stops actions p h = omega (arith, run-limit actions p h)

  -- The steps that a thread has left once `m_done` is set.
  abbrev pub rank : Worker Task → ℕ
  rank gone = 0
  rank testing = 1
  rank (running task) = 2
  rank (holding task) = 3
  rank popping = 4

  abbrev pub rank_at : ℕ → List (Worker Task) → ℕ
  rank_at i [] = 0
  rank_at zero (w ∷ ws) = rank w
  rank_at (suc i) (w ∷ ws) = rank_at i ws

  -- How often the thread takes its turn.
  abbrev pub turns : ℕ → List (Action Task) → ℕ
  turns i [] = 0
  turns i (works j ∷ rest) = (if i == j then 1 else 0) + turns i rest
  turns i (a ∷ rest) = turns i rest

  work-rank :
      (p : ThreadPool Task) (w : Worker Task) → p.done ≡ true → rank (work p w).1 ≤ rank w - 1
  unfolding work try_pop
  work-rank p testing h = rw h (omega arith)
  work-rank p popping h = elim (List-cases p.queue) [
    | inl e ↦ rw e (omega arith)
    | inr (task, rest, e) ↦ rw e (omega arith)
  ]
  work-rank p (holding task) h = omega arith
  work-rank p (running task) h = omega arith
  work-rank p gone h = omega arith

  work_at-rank :
      (i j : ℕ) (p : ThreadPool Task) (ws : List (Worker Task))
      → p.done ≡ true
      → rank_at i (work_at j p ws).1 ≤ rank_at i ws - (if i == j then 1 else 0)
  unfolding work_at
  work_at-rank i j p [] h = omega arith
  work_at-rank zero zero p (w ∷ ws) h = work-rank p w h
  work_at-rank zero (suc j) p (w ∷ ws) h = ground arith
  work_at-rank (suc i) zero p (w ∷ ws) h = ground arith
  work_at-rank (suc i) (suc j) p (w ∷ ws) h = ground (arith, work_at-rank i j p ws h)

  run-rank :
      (i : ℕ) (actions : List (Action Task)) (p : ThreadPool Task)
      → p.done ≡ true
      → rank_at i (run actions p).workers ≤ rank_at i p.workers - turns i actions
  unfolding run act submit destroy
  run-rank i [] p h = omega arith
  run-rank i (submits task ∷ rest) p h = run-rank i rest (submit task p) h
  run-rank i (destroys ∷ rest) p h = run-rank i rest (destroy p) refl
  run-rank i (works j ∷ rest) p h = omega (
    arith,
    work_at-rank i j p p.workers h,
    run-rank i rest (act (works j) p) (work_at-limit j p p.workers h).1,
  )

  rank_bound : (i : ℕ) (ws : List (Worker Task)) → rank_at i ws ≤ 4
  rank_bound i [] = omega arith
  rank_bound zero (testing ∷ ws) = omega arith
  rank_bound zero (popping ∷ ws) = omega arith
  rank_bound zero (holding task ∷ ws) = omega arith
  rank_bound zero (running task ∷ ws) = omega arith
  rank_bound zero (gone ∷ ws) = omega arith
  rank_bound (suc i) (w ∷ ws) = rank_bound i ws

  -- Once `m_done` is set, a thread whose tasks return has left its loop after at most four turns,
  -- whatever the others do, so the joining of the threads ends.
  pub run_joins :
      (i : ℕ) (actions : List (Action Task)) (p : ThreadPool Task)
      → p.done ≡ true
      → 4 ≤ turns i actions
      → rank_at i (run actions p).workers ≡ 0
  run_joins i actions p h many = omega (arith, run-rank i actions p h, rank_bound i p.workers)
