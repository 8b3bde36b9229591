-- ===== src/RouterDealer/Ends.antt =====
-- Behind the end of the work every worker is fired, and the broker leaves its loop.
use canna.Prelude.{
  ℕ, ◌+◌, ◌*◌, ◌≡◌, ◌≢◌, ◌≤◌, ◌<◌, ◌⊎◌, refl, sym, ap, ◌∙◌, true, false, List, [], ◌∷◌, ◌++◌, ltb,
  length, arith, Bool-cases, inl, inr, ==_iff,
}
use canna.RouterDealer.{
  work_count, Worker, working, ready, done, Farm, on_workload, broker_round, Step, says, hears,
  Reach, next, Late, stays, goes,
}
use canna.RouterDealer.Fired.{done_count, steps_left, replaced, IsValid, Reach-IsValid}

abbrev pub AllDone : List Worker → Type 0
AllDone [] = Unit
AllDone (done total ∷ ws) = AllDone ws
AllDone (working total ∷ ws) = ⊥
AllDone (ready total ∷ ws) = ⊥

done_count-le : (ws : List Worker) → done_count ws ≤ length ws
done_count-le [] = omega arith
done_count-le (done t ∷ ws) = omega (arith, done_count-le ws)
done_count-le (working t ∷ ws) = omega (arith, done_count-le ws)
done_count-le (ready t ∷ ws) = omega (arith, done_count-le ws)

done_count-AllDone : (ws : List Worker) → done_count ws ≡ length ws → AllDone ws
done_count-AllDone [] e = tt
done_count-AllDone (done t ∷ ws) e = done_count-AllDone ws (omega (arith, e))
done_count-AllDone (working t ∷ ws) e = absurd (omega (arith, e, done_count-le ws))
done_count-AllDone (ready t ∷ ws) e = absurd (omega (arith, e, done_count-le ws))

steps_left-le : (ws : List Worker) → steps_left ws ≤ 2 * length ws
steps_left-le [] = omega arith
steps_left-le (done t ∷ ws) = omega (arith, steps_left-le ws)
steps_left-le (working t ∷ ws) = omega (arith, steps_left-le ws)
steps_left-le (ready t ∷ ws) = omega (arith, steps_left-le ws)

-- A worker between the others that is not done.
abbrev Unfinished : List Worker → Type 0
Unfinished ws =
    (before : List Worker) × (after : List Worker) × (total : ℕ) × ((ws
        ≡ before ++ working total ∷ after)
      ⊎ (ws ≡ before ++ ready total ∷ after))

unfinished : (ws : List Worker) → done_count ws < length ws → Unfinished ws
unfinished [] h = absurd (omega (arith, h))
unfinished (working t ∷ ws) h = ([], ws, t, inl refl)
unfinished (ready t ∷ ws) h = ([], ws, t, inr refl)
unfinished (done t ∷ ws) h =
    let (before, after, total, found) = unfinished ws (omega (arith, h)) in
    (
      done t ∷ before,
      after,
      total,
      elim found [ inl e ↦ inl (ap (λ l. done t ∷ l) e) | inr e ↦ inr (ap (λ l. done t ∷ l) e) ],
    )

still_busy : (f : Farm) → IsValid f → f.ended ≡ false → f.worker_fired ≢ work_count
still_busy f v open_ h =
    let (to, from) = ==_iff f.worker_fired work_count in let ended = v.leaves ∙ from h in cc

-- A farm whose loop goes on can take a step.
progress :
    {end_time : ℕ} (now : ℕ) (f : Farm)
    → IsValid f
    → f.ended ≡ false
    → (g : Farm) × Step end_time now f g
progress now f v open_ =
    let short : done_count f.workers < length f.workers =
      omega (arith, still_busy f v open_, done_count-le f.workers, v.counted, v.ten) in
    let (before, after, total, found) = unfinished f.workers short in
    elim found [
      | inl e ↦ (_, says before after total e)
      | inr e ↦ (_, hears before after total open_ e)
    ]

-- A late step brings the workers one step nearer.
Step-steps_left :
    {end_time now : ℕ} {f g : Farm}
    → end_time ≤ now
    → Step end_time now f g
    → 1 + steps_left g.workers ≡ steps_left f.workers
unfolding broker_round on_workload
Step-steps_left {f = f} le (says before after total e) =
    let (c, d, s) = replaced f.workers before after (working total) (ready total) e in
    omega (arith, s)
Step-steps_left {end_time} {now} {f = f} le (hears before after total open_ e) =
    let (c, d, s) = replaced f.workers before after (ready total) (done total) e in
    let late : ltb now end_time ≡ false = ground (arith, le) in rw late (omega (arith, s))

Late-steps_left :
    {end_time : ℕ} {f : Farm} {n : ℕ} {g : Farm}
    → Late end_time f n g
    → n + steps_left g.workers ≡ steps_left f.workers
Late-steps_left stays = omega arith
Late-steps_left (goes now le l s) = omega (arith, Late-steps_left l, Step-steps_left le s)

Late-Reach :
    {end_time : ℕ} {f : Farm} {n : ℕ} {g : Farm}
    → Reach end_time f
    → Late end_time f n g
    → Reach end_time g
Late-Reach r stays = r
Late-Reach r (goes now le l s) = next now (Late-Reach r l) s

-- In a farm that can be reached, the loop has been left only when every worker is done.
pub Reach-AllDone :
    {end_time : ℕ} {f : Farm} → Reach end_time f → f.ended ≡ true → AllDone f.workers
Reach-AllDone {f = f} r e =
    let v = Reach-IsValid r in
    let (to, from) = ==_iff f.worker_fired work_count in
    done_count-AllDone f.workers (v.counted ∙ to (sym v.leaves ∙ e) ∙ sym v.ten)

-- From whatever can be reached, there are at most twenty steps behind the end of the work, and
-- when some have been taken, either the loop has been left and every worker is done, so that all
-- the threads can be joined, or another step can be taken at any time.
pub Late-ends :
    {end_time n : ℕ} {f g : Farm}
    → Reach end_time f
    → Late end_time f n g
    → (n ≤ 20)
      × (((g.ended ≡ true) × AllDone g.workers) ⊎ ((now : ℕ) → (h : Farm) × Step end_time now g h))
Late-ends {f = f} {g} r l =
    let v = Reach-IsValid r in
    let w = Reach-IsValid (Late-Reach r l) in
    (
      omega (arith, Late-steps_left l, steps_left-le f.workers, v.ten),
      elim (Bool-cases g.ended) [
        | inl e ↦ inl (e, Reach-AllDone (Late-Reach r l) e)
        | inr e ↦ inr (λ now. progress now g w e)
      ],
    )
