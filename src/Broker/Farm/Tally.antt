-- ===== src/Broker/Farm/Tally.antt =====
-- Sums over the threads.
use canna.Prelude.{one, ℕ, not}
use canna.Broker.{Frame, ready, frame_eq}
use canna.Broker.Farm.{
  ok, Client, fresh, asked, taken, answered, Worker, starting, announces, waits, busy, replies,
}

-- How often an identity stands in the queue, and how many workers of that identity wait.
abbrev pub is_frame : Frame → Frame → ℕ
is_frame x y = one (frame_eq x y)

abbrev pub waiting : Frame → Worker → ℕ
waiting x (starting w) = 0
waiting x (announces w) = 0
waiting x (waits w) = is_frame x w
waiting x (busy w c) = 0
waiting x (replies w c) = 0

-- Whether a worker serves a client, and whether a client is being served.
abbrev pub serving : Frame → Worker → ℕ
serving x (starting w) = 0
serving x (announces w) = 0
serving x (waits w) = 0
serving x (busy w c) = is_frame x c
serving x (replies w c) = is_frame x c

abbrev pub served : Frame → Client → ℕ
served x (fresh c) = 0
served x (asked c) = 0
served x (taken c) = is_frame x c
served x (answered c reply) = 0

abbrev pub unanswered : Client → ℕ
unanswered (fresh c) = 1
unanswered (asked c) = 1
unanswered (taken c) = 1
unanswered (answered c reply) = 0

-- Answered with something else, or with the identity that says that a worker is ready.
abbrev pub wrong : Client → ℕ
wrong (fresh c) = is_frame c ready
wrong (asked c) = is_frame c ready
wrong (taken c) = is_frame c ready
wrong (answered c reply) = one (not (frame_eq reply ok))

-- The steps that a thread still needs.
abbrev pub worker_left : Worker → ℕ
worker_left (starting w) = 2
worker_left (announces w) = 1
worker_left (waits w) = 0
worker_left (busy w c) = 2
worker_left (replies w c) = 1

abbrev pub client_left : Client → ℕ
client_left (fresh c) = 4
client_left (asked c) = 3
client_left (taken c) = 0
client_left (answered c reply) = 0
