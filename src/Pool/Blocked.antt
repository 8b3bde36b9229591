-- ===== src/Pool/Blocked.antt =====
-- core/thread_safe_queue.h: the callers that wait in wait_and_pop, and the condition variable by
-- which push wakes one. A caller waits, or has been woken and has not got the mutex again, or has
-- returned. No wake-up is lost.
use canna.Prelude.{
  ℕ, zero, suc, ◌+◌, ◌≤◌, ◌≡◌, ◌⊎◌, refl, ap, sym, ◌∙◌, inl, inr, List, [], ◌∷◌, ◌++◌, none, some,
  arith, length, length-append, append_assoc, append-nil, replicate, List-cases,
}
use canna.Pool.{push, try_pop, wait_and_pop}

-- The queue, the threads that wait, those that were woken, and the values that callers got, in
-- order.
pub record Waiting (Value : Type 0) : Type 0 where
  pub queue : List Value
  pub asleep : ℕ
  pub woken : ℕ
  pub given : List Value

-- What happens next: a call of `push`, of `wait_and_pop` or of `try_pop`, a thread that was woken
-- gets the mutex, or a thread wakes up though nobody has called it.
pub data Turn (Value : Type 0) : Type 0 where
  pushes : Value → Turn Value
  calls tries resumes stirs : Turn Value

zero_or_suc : (n : ℕ) → (n ≡ 0) ⊎ ((k : ℕ) × (n ≡ suc k))
zero_or_suc zero = inl refl
zero_or_suc (suc n) = inr (n, refl)

module _ {Value : Type 0} where
  -- `notify_one`
  unfoldable pub notify_one : Waiting Value → Waiting Value
  notify_one w = elim w.asleep [ zero ↦ w | suc n ↦ record w { asleep = n; woken = w.woken + 1 } ]

  -- A caller with the mutex: it takes a value, or waits.
  unfoldable pub pop_or_wait : Waiting Value → Waiting Value
  pop_or_wait w = elim (wait_and_pop w.queue) [
    | none ↦ record w { asleep = w.asleep + 1 }
    | some (value, rest) ↦ record w { queue = rest; given = w.given ++ value ∷ [] }
  ]

  unfoldable pub pop_or_fail : Waiting Value → Waiting Value
  pop_or_fail w = elim (try_pop w.queue) [
    | none ↦ w
    | some (value, rest) ↦ record w { queue = rest; given = w.given ++ value ∷ [] }
  ]

  unfoldable pub turn : Turn Value → Waiting Value → Waiting Value
  turn (pushes value) w = notify_one (record w { queue = push value w.queue })
  turn calls w = pop_or_wait w
  turn tries w = pop_or_fail w
  turn resumes w = elim w.woken [ zero ↦ w | suc n ↦ pop_or_wait (record w { woken = n }) ]
  turn stirs w = notify_one w

  unfoldable pub turns : List (Turn Value) → Waiting Value → Waiting Value
  turns [] w = w
  turns (t ∷ rest) w = turns rest (turn t w)

  unfoldable pub nobody : Waiting Value
  nobody = record { queue = []; asleep = 0; woken = 0; given = [] }

  abbrev pub pushed : List (Turn Value) → List Value
  pushed [] = []
  pushed (pushes value ∷ rest) = value ∷ pushed rest
  pushed (t ∷ rest) = pushed rest

  abbrev all_values : Waiting Value → List Value
  all_values w = w.given ++ w.queue

  -- As long as a thread waits, there are no more values than threads that were woken for them.
  abbrev IsAwake : Waiting Value → Type 0
  IsAwake w = (w.asleep ≡ 0) ⊎ (length w.queue ≤ w.woken)

  abbrev Known : Waiting Value → List Value → Waiting Value → Type 0
  Known w new t = IsAwake t × (all_values t ≡ all_values w ++ new)

  notify_one-Known :
      (w : Waiting Value)
      → (w.asleep ≡ 0) ⊎ (length w.queue ≤ w.woken + 1)
      → Known w [] (notify_one w)
  unfolding notify_one
  notify_one-Known w v = elim (zero_or_suc w.asleep) [
    | inl e ↦ rw e (inl refl, sym (append-nil (w.given ++ w.queue)))
    | inr (n, e) ↦ elim v [
      | inl f ↦ absurd (omega (arith, e, f))
      | inr few ↦ rw e (inr few, sym (append-nil (w.given ++ w.queue)))
    ]
  ]

  pop_or_wait-Known :
      (w : Waiting Value)
      → (w.asleep ≡ 0) ⊎ (length w.queue ≤ w.woken + 1)
      → Known w [] (pop_or_wait w)
  unfolding pop_or_wait wait_and_pop
  pop_or_wait-Known w v = elim (List-cases w.queue) [
    | inl e ↦ rw e (inr (omega arith), sym (append-nil (w.given ++ [])))
    | inr (value, rest, e) ↦
        let popped =
          append_assoc w.given (value ∷ []) rest ∙ sym (append-nil (w.given ++ value ∷ rest)) in
        let n = ap length e in
        rw e (elim v [ inl f ↦ inl f | inr few ↦ inr (omega (arith, few, n)) ], popped)
  ]

  pop_or_fail-Known : (w : Waiting Value) → IsAwake w → Known w [] (pop_or_fail w)
  unfolding pop_or_fail try_pop
  pop_or_fail-Known w v = elim (List-cases w.queue) [
    | inl e ↦ rw e (inr (omega arith), sym (append-nil (w.given ++ [])))
    | inr (value, rest, e) ↦
        let popped =
          append_assoc w.given (value ∷ []) rest ∙ sym (append-nil (w.given ++ value ∷ rest)) in
        let n = ap length e in
        rw e (elim v [ inl f ↦ inl f | inr few ↦ inr (omega (arith, few, n)) ], popped)
  ]

  abbrev new_value : Turn Value → List Value
  new_value (pushes value) = value ∷ []
  new_value t = []

  one_more : (w : Waiting Value) → IsAwake w → (w.asleep ≡ 0) ⊎ (length w.queue ≤ w.woken + 1)
  one_more w v = elim v [ inl e ↦ inl e | inr few ↦ inr (omega (arith, few)) ]

  turn-Known : (t : Turn Value) (w : Waiting Value) → IsAwake w → Known w (new_value t) (turn t w)
  unfolding turn push
  turn-Known (pushes value) w v =
      let n = length-append w.queue (value ∷ []) in
      let (awake, same) =
        notify_one-Known (record w { queue = w.queue ++ value ∷ [] })
          (elim v [ inl e ↦ inl e | inr few ↦ inr (omega (arith, few, n)) ]) in
      (
        awake,
        same
            ∙ append-nil (w.given ++ (w.queue ++ value ∷ []))
            ∙ sym (append_assoc w.given w.queue (value ∷ [])),
      )
  turn-Known calls w v = pop_or_wait-Known w (one_more w v)
  turn-Known tries w v = pop_or_fail-Known w v
  turn-Known stirs w v = notify_one-Known w (one_more w v)
  turn-Known resumes w v = elim (zero_or_suc w.woken) [
    | inl e ↦
        rw (e, turn)
          (
            elim v [ inl f ↦ inl f | inr few ↦ inr (omega (arith, few, e)) ],
            sym (append-nil (w.given ++ w.queue)),
          )
    | inr (n, e) ↦
        rw (e, turn)
          (pop_or_wait-Known (record w { woken = n })
            (elim v [ inl f ↦ inl f | inr few ↦ inr (omega (arith, few, e)) ]))
  ]

  turns-Known :
      (ts : List (Turn Value)) (w : Waiting Value) → IsAwake w → Known w (pushed ts) (turns ts w)
  unfolding turns
  turns-Known [] w v = (v, sym (append-nil (w.given ++ w.queue)))
  turns-Known (t ∷ ts) w v =
      let (awake, one) = turn-Known t w v in
      let (still, all) = turns-Known ts (turn t w) awake in
      (
        still,
        all
            ∙ ap (λ l. l ++ pushed ts) one
            ∙ append_assoc (all_values w) (new_value t) (pushed ts)
            ∙ ap (λ l. all_values w ++ l) (joined t ts),
      )
    where
      joined :
          (t : Turn Value) (ts : List (Turn Value)) → new_value t ++ pushed ts ≡ pushed (t ∷ ts)
      joined (pushes value) ts = refl
      joined calls ts = refl
      joined tries ts = refl
      joined resumes ts = refl
      joined stirs ts = refl

  pop_or_wait-woken : (w : Waiting Value) → (pop_or_wait w).woken ≡ w.woken
  unfolding pop_or_wait wait_and_pop
  pop_or_wait-woken w = elim (List-cases w.queue) [
    | inl e ↦ rw e refl
    | inr (value, rest, e) ↦ rw e refl
  ]

  resumed : (n : ℕ) (w : Waiting Value) → w.woken ≡ n → (turns (replicate n resumes) w).woken ≡ 0
  unfolding turns turn
  resumed zero w e = e
  resumed (suc n) w e =
      resumed n (turn resumes w) (rw (e, turn) (pop_or_wait-woken (record w { woken = n })))

  none_pushed : (n : ℕ) → pushed (replicate n resumes) ≡ []
  none_pushed zero = refl
  none_pushed (suc n) = none_pushed n

  -- Whatever pushes, calls of wait_and_pop and try_pop, and stray wake-ups come, in any order, from
  -- an empty queue that nobody waits for: once each thread that was woken has got the mutex, nobody
  -- waits or no value is left; and at any time the values that callers got, in order, and then those
  -- in the queue are the values that were pushed, in order.
  pub turns-woken :
      (ts : List (Turn Value))
      → let w = turns ts nobody in
        let t = turns (replicate w.woken resumes) w in
        ((t.asleep ≡ 0) ⊎ (t.queue ≡ []))
        × (w.given ++ w.queue ≡ pushed ts)
        × (t.given ++ t.queue ≡ pushed ts)
  unfolding nobody
  turns-woken ts =
      let w = turns ts nobody in
      let (awake, all) = turns-Known ts nobody (inl refl) in
      let (still, same) = turns-Known (replicate w.woken resumes) w awake in
      let gone = resumed w.woken w refl in
      (
        elim still [ inl e ↦ inl e | inr few ↦ inr (empty_lem _ (omega (arith, few, gone))) ],
        all,
        same ∙ ap (λ l. all_values w ++ l) (none_pushed w.woken) ∙ append-nil (all_values w) ∙ all,
      )
    where
      empty_lem : (q : List Value) → length q ≤ 0 → q ≡ []
      empty_lem [] h = refl
      empty_lem (v ∷ q) h = absurd (omega (arith, h))
