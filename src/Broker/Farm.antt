-- ===== src/Broker/Farm.antt =====
-- example/lbbroker.cpp, the whole program: the client threads, the worker threads and the loop of
-- `main` between them. The steps interleave in any order. A message is on its way from the step
-- that sends it to the round of `main` that receives it, and what `main` has sent in that round is
-- received at once by a thread of the identity that it names.
pub mod Tally
pub mod Sent
pub mod Kept
pub mod Progress
pub mod Ends
mod Tests
use canna.Prelude.{
  ℕ, zero, suc, ◌≡◌, Bool, true, false, List, [], ◌∷◌, ◌++◌, Option, none, some, map, ◌||◌, ◌&&◌,
  not,
}
use canna.Core.{set_id}
use canna.Broker.{
  Frame, ready, frame_eq, FromWorker, FromClient, Job, Broker, Turn, goes_on, breaks, from_client,
  take_backend, take_frontend, has_worker,
}

-- "HELLO" and "OK"
abbrev pub hello : Frame
hello = b'H' ∷ b'E' ∷ b'L' ∷ b'L' ∷ b'O' ∷ []

abbrev pub ok : Frame
ok = b'O' ∷ b'K' ∷ []

-- Where a client thread is: before it sends, its request on its way, the request taken, or behind
-- its `canna_recv`.
pub data Client : Type 0 where
  fresh : (identity : Frame) → Client
  asked : (identity : Frame) → Client
  taken : (identity : Frame) → Client
  answered : (identity reply : Frame) → Client

-- Where a worker thread is: before "READY", this on its way, waiting for an address, with a
-- client's request, or its answer on its way.
pub data Worker : Type 0 where
  starting : (identity : Frame) → Worker
  announces : (identity : Frame) → Worker
  waits : (identity : Frame) → Worker
  busy : (identity address : Frame) → Worker
  replies : (identity address : Frame) → Worker

-- The threads and the loop of `main`.
pub record Farm : Type 0 where
  pub clients : List Client
  pub workers : List Worker
  pub turn : Turn

-- The replies that `main` has sent once it has taken a worker's message.
abbrev pub replies_of : Turn → List (Frame × Frame)
replies_of (goes_on b) = b.replies
replies_of (breaks b) = b.replies

-- What a worker sends: "READY", and its answer to a client.
abbrev pub ready_from : Frame → FromWorker
ready_from w = record { worker = w; client_addr = ready; reply = [] }

abbrev pub answer_from : Frame → Frame → FromWorker
answer_from w c = record { worker = w; client_addr = c; reply = ok }

-- The message that `backend` receives in a round, and the threads then: what `main` sends to a
-- client goes to a thread of that identity that waits for its reply.
pub data Takes (b : Broker) (ws : List Worker) (cs : List Client)
    : Option FromWorker → List Worker → List Client → Type 0 where
  no_worker : Takes b ws cs none ws cs
  hears_ready :
      (before after : List Worker) (w : Frame)
      → ws ≡ before ++ announces w ∷ after
      → replies_of (take_backend (some (ready_from w)) b) ≡ b.replies
      → Takes b ws cs (some (ready_from w)) (before ++ waits w ∷ after) cs
  hears_reply :
      (before after : List Worker) (front back : List Client) (w c a r : Frame)
      → ws ≡ before ++ replies w c ∷ after
      → replies_of (take_backend (some (answer_from w c)) b) ≡ b.replies ++ (a, r) ∷ []
      → cs ≡ front ++ taken a ∷ back
      → Takes b ws cs
          (some (answer_from w c))
          (before ++ waits w ∷ after)
          (front ++ answered a r ∷ back)

-- The message that `frontend` receives in a round, and the threads then: the job that `main` sends
-- goes to a waiting worker of the job's `worker_addr`.
pub data Gives (polled : Bool) (t : Turn) (ws : List Worker) (cs : List Client)
    : Option FromClient → List Worker → List Client → Type 0 where
  no_client : Gives polled t ws cs none ws cs
  gives :
      (before after : List Worker) (front back : List Client) (b sent : Broker) (c : Frame)
      (j : Job)
      → polled ≡ true
      → t ≡ goes_on b
      → from_client (record { client_addr = c; request = hello }) b ≡ some sent
      → sent.jobs ≡ b.jobs ++ j ∷ []
      → ws ≡ before ++ waits j.worker_addr ∷ after
      → cs ≡ front ++ asked c ∷ back
      → Gives polled t ws cs
          (some (record { client_addr = c; request = hello }))
          (before ++ busy j.worker_addr j.client_addr ∷ after)
          (front ++ taken c ∷ back)

-- `zmq::poll` has no time-out: it returns when there is a message.
abbrev pub wakes : Option FromWorker → Option FromClient → Bool
wakes none none = false
wakes none (some n) = true
wakes (some m) n = true

-- What can happen: a client sends its request, a worker says that it is ready, a worker answers, or
-- `main` runs a round of its loop.
pub data Step (f : Farm) : Farm → Type 0 where
  asks :
      (front back : List Client) (c : Frame)
      → f.clients ≡ front ++ fresh c ∷ back
      → Step f (record f { clients = front ++ asked c ∷ back })
  registers :
      (before after : List Worker) (w : Frame)
      → f.workers ≡ before ++ starting w ∷ after
      → Step f (record f { workers = before ++ announces w ∷ after })
  works :
      (before after : List Worker) (w c : Frame)
      → f.workers ≡ before ++ busy w c ∷ after
      → Step f (record f { workers = before ++ replies w c ∷ after })
  rounds :
      {b : Broker} {m : Option FromWorker} {n : Option FromClient} {ws ws' : List Worker}
      {cs cs' : List Client} {u : Turn}
      → f.turn ≡ goes_on b
      → wakes m n ≡ true
      → Takes b f.workers f.clients m ws cs
      → Gives (has_worker b.worker_queue) (take_backend m b) ws cs n ws' cs'
      → take_frontend n (has_worker b.worker_queue) (take_backend m b) ≡ some u
      → Step f (record { clients = cs'; workers = ws'; turn = u })

abbrev pub set_ids : List (ℕ × ℕ) → List Frame
set_ids ids = map (λ i. set_id i.0 i.1) ids

-- No two threads share an identity: a ROUTER socket takes no second peer of the same one.
abbrev pub holds_frame : Frame → List Frame → Bool
holds_frame x [] = false
holds_frame x (y ∷ ys) = frame_eq x y || holds_frame x ys

abbrev pub all_distinct : List Frame → Bool
all_distinct [] = true
all_distinct (x ∷ xs) = not (holds_frame x xs) && all_distinct xs

-- The threads have been started, with the identities of `canna_setid` from these random numbers.
unfoldable pub started : List (ℕ × ℕ) → List (ℕ × ℕ) → Farm
started client_ids worker_ids = record {
  clients = map fresh (set_ids client_ids);
  workers = map starting (set_ids worker_ids);
  turn = goes_on (record { worker_queue = []; client_count = 10; replies = []; jobs = [] });
}

-- So many steps.
pub data Runs (f : Farm) : ℕ → Farm → Type 0 where
  begins : Runs f zero f
  next : {n : ℕ} {g h : Farm} → Runs f n g → Step g h → Runs f (suc n) h
