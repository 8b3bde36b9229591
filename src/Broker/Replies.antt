-- ===== src/Broker/Replies.antt =====
-- A client with an identity from canna_setid (core/canna_core.cpp) gets every reply meant for it.
use canna.Prelude.{
  ℕ, ◌-◌, ◌≡◌, refl, inl, inr, true, false, [], ◌∷◌, ◌++◌, none, arith, Bool-cases, ◌==◌,
  if◌then◌else◌,
}
use canna.Broker.{Frame, ready, frame_eq, FromWorker, Broker, goes_on, breaks, from_worker}
use canna.Core.{set_id}
use canna.Core.Identity.{split_dash, set_id-ne}

pub frame_eq-true : (xs ys : Frame) → frame_eq xs ys ≡ true → xs ≡ ys
frame_eq-true [] [] h = refl
frame_eq-true [] (y ∷ ys) h = cc
frame_eq-true (x ∷ xs) [] h = cc
frame_eq-true (x ∷ xs) (y ∷ ys) h = ground (arith, frame_eq-true xs ys)

ready-no_dash : split_dash ready ≡ none
unfolding split_dash
ready-no_dash = refl

pub not-ready : (a b : ℕ) → frame_eq (set_id a b) ready ≡ false
not-ready a b = elim (Bool-cases (frame_eq (set_id a b) ready)) [
  | inl e ↦ absurd (set_id-ne a b ready ready-no_dash (frame_eq-true (set_id a b) ready e))
  | inr e ↦ e
]

-- The broker that has forwarded an answer.
abbrev pub answered : FromWorker → Broker → Broker
answered m b = record b {
  worker_queue = b.worker_queue ++ m.worker ∷ [];
  replies = b.replies ++ (m.client_addr, m.reply) ∷ [];
  client_count = b.client_count - 1;
}

-- A message that is no "READY".
pub from_worker-answered :
    (m : FromWorker) (b : Broker)
    → frame_eq m.client_addr ready ≡ false
    → (from_worker m b
        ≡ (if b.client_count == 1 then breaks (answered m b) else goes_on (answered m b)))
unfolding from_worker
from_worker-answered m b other = ground arith

-- A worker's answer to a client whose identity is any that `canna_setid` makes is sent to that
-- client as it is, behind the earlier replies, and the worker waits again; it is never taken for
-- the message that a worker is ready. The count of clients falls by one, and the loop ends just if
-- it was 1.
pub from_worker-set_id :
    (m : FromWorker) (b : Broker) (x y : ℕ)
    → m.client_addr ≡ set_id x y
    → (from_worker m b
        ≡ (if b.client_count == 1 then breaks (answered m b) else goes_on (answered m b)))
from_worker-set_id m b x y h = from_worker-answered m b (rw h (not-ready x y))
