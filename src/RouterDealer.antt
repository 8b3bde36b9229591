-- ===== src/RouterDealer.antt =====
-- example/routerdealer.cpp: a broker that gives ten worker threads work until a time, and then
-- fires them. The empty frames between the others are left out, and so is what is printed.
pub mod Fired
pub mod Ends
mod Tests
use canna.Prelude.{
  ℕ, zero, suc, ◌+◌, ◌≡◌, ◌≤◌, Bool, true, false, List, [], ◌∷◌, ◌++◌, if◌then◌else◌, ltb, ◌==◌,
  replicate,
}
use canna.Broker.{Frame, frame_eq}

abbrev pub work_count : ℕ
work_count = 10

-- "WORK HARDER" and "FIRED!"
abbrev pub work_harder : Frame
work_harder = b'W' ∷ b'O' ∷ b'R' ∷ b'K' ∷ b' ' ∷ b'H' ∷ b'A' ∷ b'R' ∷ b'D' ∷ b'E' ∷ b'R' ∷ []

abbrev pub fired_text : Frame
fired_text = b'F' ∷ b'I' ∷ b'R' ∷ b'E' ∷ b'D' ∷ b'!' ∷ []

-- Where a worker thread is in its loop, with its `total`: before it sends "READY", waiting for the
-- workload, or behind the loop.
pub data Worker : Type 0 where
  working : (total : ℕ) → Worker
  ready : (total : ℕ) → Worker
  done : (total : ℕ) → Worker

-- The worker threads, and the broker's loop: `ended` once it has left it.
pub record Farm : Type 0 where
  pub workers : List Worker
  pub worker_fired : ℕ
  pub ended : Bool

-- The rest of a worker's round, from the workload that it receives.
unfoldable pub on_workload : Frame → ℕ → Worker
on_workload workload total =
    if frame_eq fired_text workload then done total else working (total + 1)

-- One round of the broker, at the time `now`, for the worker between the others that is ready.
unfoldable pub broker_round : (end_time now : ℕ) → List Worker → ℕ → List Worker → Farm → Farm
broker_round end_time now before total after f =
    if ltb now end_time
    then record f { workers = before ++ on_workload work_harder total ∷ after }
    else record {
      workers = before ++ on_workload fired_text total ∷ after;
      worker_fired = f.worker_fired + 1;
      ended = f.worker_fired + 1 == work_count;
    }

-- What can happen at a time: a worker says that it is ready, or the broker hears one that is.
pub data Step (end_time now : ℕ) (f : Farm) : Farm → Type 0 where
  says :
      (before after : List Worker) (total : ℕ)
      → f.workers ≡ before ++ working total ∷ after
      → Step end_time now f (record f { workers = before ++ ready total ∷ after })
  hears :
      (before after : List Worker) (total : ℕ)
      → f.ended ≡ false
      → f.workers ≡ before ++ ready total ∷ after
      → Step end_time now f (broker_round end_time now before total after f)

-- The threads have been started, and the broker is before its loop.
unfoldable pub started : Farm
started = record { workers = replicate work_count (working 0); worker_fired = 0; ended = false }

-- What can be reached, whatever the clock shows.
pub data Reach (end_time : ℕ) : Farm → Type 0 where
  begins : Reach end_time started
  next : {f g : Farm} (now : ℕ) → Reach end_time f → Step end_time now f g → Reach end_time g

-- So many steps, each at or behind the end of the work.
pub data Late (end_time : ℕ) (f : Farm) : ℕ → Farm → Type 0 where
  stays : Late end_time f zero f
  goes :
      {n : ℕ} {g h : Farm} (now : ℕ)
      → end_time ≤ now
      → Late end_time f n g
      → Step end_time now g h
      → Late end_time f (suc n) h
