-- ===== src/Pool/Order.antt =====
-- The order in which tasks are taken from the queue, and the tasks that are started.
use canna.Prelude.{
  tally, tally-append, ℕ, zero, suc, ◌+◌, ◌≡◌, refl, ap, sym, ◌∙◌, inl, inr, List, [], ◌∷◌, ◌++◌,
  append_assoc, append-nil, arith, Bool-cases, List-cases, replicate, if◌then◌else◌, ltb,
}
use canna.Pool.{
  Worker, testing, popping, holding, running, gone, ThreadPool, Action, submits, destroys, works,
  push, try_pop, new_pool, submit, destroy, work, work_at, act, run,
}

module _ {Task : Type 0} where
  -- All tasks that the pool has been given, as far as it knows.
  abbrev pub known : ThreadPool Task → List Task
  known p = p.popped ++ p.queue

  -- The tasks that a sequence of actions submits.
  abbrev pub submitted : List (Action Task) → List Task
  submitted [] = []
  submitted (submits task ∷ rest) = task ∷ submitted rest
  submitted (a ∷ rest) = submitted rest

  work-known : (p : ThreadPool Task) (w : Worker Task) → known (work p w).0 ≡ known p
  unfolding work try_pop
  work-known p testing = refl
  work-known p popping = elim (List-cases p.queue) [
    | inl e ↦ rw e refl
    | inr (task, rest, e) ↦ rw e (append_assoc p.popped (task ∷ []) rest)
  ]
  work-known p (holding task) = refl
  work-known p (running task) = refl
  work-known p gone = refl

  work_at-known :
      (i : ℕ) (p : ThreadPool Task) (ws : List (Worker Task)) → known (work_at i p ws).0 ≡ known p
  unfolding work_at
  work_at-known i p [] = refl
  work_at-known zero p (w ∷ ws) = work-known p w
  work_at-known (suc i) p (w ∷ ws) = work_at-known i p ws

  run-known :
      (actions : List (Action Task)) (p : ThreadPool Task)
      → known (run actions p) ≡ known p ++ submitted actions
  unfolding run act submit push destroy
  run-known [] p = sym (append-nil (known p))
  run-known (submits task ∷ rest) p =
      run-known rest (submit task p) ∙ shift p.popped p.queue (task ∷ []) (submitted rest)
    where
      shift : (a b c d : List Task) → a ++ (b ++ c) ++ d ≡ a ++ b ++ (c ++ d)
      shift a b c d = ap (λ l. l ++ d) (sym (append_assoc a b c)) ∙ append_assoc (a ++ b) c d
  run-known (destroys ∷ rest) p = run-known rest (destroy p)
  run-known (works i ∷ rest) p =
      run-known rest (act (works i) p) ∙ ap (λ l. l ++ submitted rest) (work_at-known i p p.workers)

  -- What a thread has taken and not started, by a measure of tasks.
  abbrev pub in_hand : (Task → ℕ) → Worker Task → ℕ
  in_hand f testing = 0
  in_hand f popping = 0
  in_hand f (holding task) = f task
  in_hand f (running task) = 0
  in_hand f gone = 0

  -- What a step adds to the tasks started and in hand it adds to the tasks taken.
  work-balanced :
      (f : Task → ℕ) (p : ThreadPool Task) (w : Worker Task)
      → tally f (work p w).0.started + in_hand f (work p w).1 + tally f p.popped
        ≡ tally f p.started + in_hand f w + tally f (work p w).0.popped
  unfolding work try_pop
  work-balanced f p testing = elim (Bool-cases p.done) [ inl e ↦ rw e refl | inr e ↦ rw e refl ]
  work-balanced f p popping = elim (List-cases p.queue) [
    | inl e ↦ rw e refl
    | inr (task, rest, e) ↦ rw e (omega (arith, tally-append f p.popped (task ∷ [])))
  ]
  work-balanced f p (holding task) = omega (arith, tally-append f p.started (task ∷ []))
  work-balanced f p (running task) = refl
  work-balanced f p gone = refl

  work_at-balanced :
      (f : Task → ℕ) (i : ℕ) (p : ThreadPool Task) (ws : List (Worker Task))
      → tally f (work_at i p ws).0.started + tally (in_hand f) (work_at i p ws).1 + tally f p.popped
        ≡ tally f p.started + tally (in_hand f) ws + tally f (work_at i p ws).0.popped
  unfolding work_at
  work_at-balanced f i p [] = refl
  work_at-balanced f zero p (w ∷ ws) = omega (arith, work-balanced f p w)
  work_at-balanced f (suc i) p (w ∷ ws) = omega (arith, work_at-balanced f i p ws)

  run-balanced :
      (f : Task → ℕ) (actions : List (Action Task)) (p : ThreadPool Task)
      → tally f p.started + tally (in_hand f) p.workers ≡ tally f p.popped
      → tally f (run actions p).started + tally (in_hand f) (run actions p).workers
        ≡ tally f (run actions p).popped
  unfolding run act submit destroy
  run-balanced f [] p h = h
  run-balanced f (submits task ∷ rest) p h = run-balanced f rest (submit task p) h
  run-balanced f (destroys ∷ rest) p h = run-balanced f rest (destroy p) h
  run-balanced f (works i ∷ rest) p h =
      run-balanced f rest (act (works i) p) (omega (arith, h, work_at-balanced f i p p.workers))

  none_in_hand : (f : Task → ℕ) (n : ℕ) → tally (in_hand f) (replicate n testing) ≡ 0
  none_in_hand f zero = refl
  none_in_hand f (suc n) = omega (arith, none_in_hand f n)

  -- Whatever the threads, the callers of `submit` and the destructor do in turn: the tasks that were
  -- taken from the queue, in that order, and then those that still wait are the tasks that were
  -- submitted, in order; and by any measure of tasks those that were started and those that a thread
  -- has taken but not started yet are together those that were taken. So none is lost or started
  -- twice, and none is overtaken in the queue, while two threads may start theirs in either order.
  pub run-submitted :
      (hardware : ℕ) (actions : List (Action Task)) (f : Task → ℕ)
      → let p = run actions (new_pool hardware) in
        (p.popped ++ p.queue ≡ submitted actions)
        × (tally f p.started + tally (in_hand f) p.workers ≡ tally f p.popped)
  unfolding new_pool
  run-submitted hardware actions f = (
    run-known actions (new_pool hardware),
    run-balanced f actions (new_pool hardware)
        (omega (arith, none_in_hand f (if ltb hardware 2 then 2 else hardware))),
  )
