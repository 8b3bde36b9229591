-- ===== src/RouterDealer/Fired.antt =====
-- The broker counts the workers that are done.
use canna.Prelude.{
  ℕ, ◌+◌, ◌≡◌, refl, ap, ◌∙◌, List, ◌∷◌, ◌++◌, ltb, ◌==◌, length, length-append, arith, tally,
  tally-replaced, Bool-cases, inl, inr,
}
use canna.RouterDealer.{
  work_count, Worker, working, ready, done, Farm, on_workload, broker_round, Step, says, hears,
  started, Reach, begins, next,
}

-- The workers that are done, and the steps that a worker is away from it.
abbrev is_done : Worker → ℕ
is_done (done total) = 1
is_done (working total) = 0
is_done (ready total) = 0

abbrev steps_of : Worker → ℕ
steps_of (done total) = 0
steps_of (working total) = 2
steps_of (ready total) = 1

abbrev pub done_count : List Worker → ℕ
done_count ws = tally is_done ws

abbrev pub steps_left : List Worker → ℕ
steps_left ws = tally steps_of ws

-- There are ten workers, `worker_fired` is the number of those that are done, and the loop has
-- been left just when it is ten.
pub record IsValid (f : Farm) : Type 0 where
  pub ten : length f.workers ≡ work_count
  pub counted : done_count f.workers ≡ f.worker_fired
  pub leaves : f.ended ≡ (f.worker_fired == work_count)

-- A worker in the place of another.
pub replaced :
    (ws before after : List Worker) (v w : Worker)
    → ws ≡ before ++ v ∷ after
    → (length (before ++ w ∷ after) ≡ length ws)
      × (done_count (before ++ w ∷ after) + is_done v ≡ done_count ws + is_done w)
      × (steps_left (before ++ w ∷ after) + steps_of v ≡ steps_left ws + steps_of w)
replaced ws before after v w e =
    let n = ap length e in
    (
      omega (arith, n, length-append before (v ∷ after), length-append before (w ∷ after)),
      tally-replaced is_done ws before after v w e,
      tally-replaced steps_of ws before after v w e,
    )

pub Step-IsValid : {end_time now : ℕ} {f g : Farm} → IsValid f → Step end_time now f g → IsValid g
unfolding broker_round on_workload
Step-IsValid {end_time} {now} {f} v (says before after total e) =
    let (c, d, s) = replaced f.workers before after (working total) (ready total) e in
    record { ten = c ∙ v.ten; counted = omega (arith, d, v.counted); leaves = v.leaves }
Step-IsValid {end_time} {now} {f} v (hears before after total open_ e) =
    elim (Bool-cases (ltb now end_time)) [
      | inl early ↦
          let (c, d, s) = replaced f.workers before after (ready total) (working (total + 1)) e in
          rw early
            record { ten = c ∙ v.ten; counted = omega (arith, d, v.counted); leaves = v.leaves }
      | inr late ↦
          let (c, d, s) = replaced f.workers before after (ready total) (done total) e in
          rw late record { ten = c ∙ v.ten; counted = omega (arith, d, v.counted); leaves = refl }
    ]

pub started-IsValid : IsValid started
unfolding started
started-IsValid = record { ten = refl; counted = refl; leaves = refl }

pub Reach-IsValid : {end_time : ℕ} {f : Farm} → Reach end_time f → IsValid f
Reach-IsValid begins = started-IsValid
Reach-IsValid (next now r s) = Step-IsValid (Reach-IsValid r) s
