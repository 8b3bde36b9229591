-- ===== src/Broker/Balance.antt =====
-- The broker never fails, and serves the workers in the order in which they became ready.
use canna.Prelude.{
  ℕ, suc, ◌≡◌, refl, ap, sym, ◌∙◌, inl, inr, Bool, true, false, List, [], ◌∷◌, ◌++◌, Option, none,
  some, ◌==◌, map, take, append_assoc, append-nil, Bool-cases, List-cases,
}
use canna.Broker.{
  Frame, ready, frame_eq, FromWorker, FromClient, Job, Broker, Arrived, Turn, goes_on, breaks,
  from_worker, from_client, take_backend, take_frontend, has_worker, turn, main_loop,
}

-- The workers that were given a job, and then those that wait.
abbrev pub workers : Broker → List Frame
workers b = map (λ j. j.worker_addr) b.jobs ++ b.worker_queue

-- The worker of each message from `backend`.
abbrev pub worker_of : Option FromWorker → List Frame
worker_of none = []
worker_of (some m) = m.worker ∷ []

abbrev pub arrivals : List Arrived → List Frame
arrivals [] = []
arrivals (a ∷ rest) = worker_of a.backend ++ arrivals rest

abbrev pub broker_of : Turn → Broker
broker_of (goes_on b) = b
broker_of (breaks b) = b

map_snoc :
    (jobs : List Job) (j : Job)
    → map (λ (i : Job). i.worker_addr) (jobs ++ j ∷ [])
      ≡ map (λ (i : Job). i.worker_addr) jobs ++ j.worker_addr ∷ []
map_snoc [] j = refl
map_snoc (i ∷ jobs) j = ap (λ l. i.worker_addr ∷ l) (map_snoc jobs j)

has_worker-snoc : (q : List Frame) (w : Frame) → has_worker (q ++ w ∷ []) ≡ true
has_worker-snoc [] w = refl
has_worker-snoc (x ∷ q) w = refl

-- What the first half of a round adds: a worker, and it takes none away.
take_backend-workers :
    (m : Option FromWorker) (b : Broker)
    → (workers (broker_of (take_backend m b)) ≡ workers b ++ worker_of m)
      × (has_worker b.worker_queue ≡ true
          → has_worker (broker_of (take_backend m b)).worker_queue ≡ true)
unfolding take_backend from_worker
take_backend-workers none b = (sym (append-nil (workers b)), λ h. h)
take_backend-workers (some m) b =
    let added =
      sym (append_assoc (map (λ j. j.worker_addr) b.jobs) b.worker_queue (m.worker ∷ [])) in
    let kept = has_worker-snoc b.worker_queue m.worker in
    elim (Bool-cases (frame_eq m.client_addr ready)) [
      | inl e ↦ rw e (added, λ h. kept)
      | inr e ↦ elim (Bool-cases (b.client_count == 1)) [
        | inl last ↦ rw (e, last) (added, λ h. kept)
        | inr more ↦ rw (e, more) (added, λ h. kept)
      ]
    ]

-- A worker that is given a job stays where it is in the order.
from_client-workers :
    (m : FromClient) (b : Broker)
    → has_worker b.worker_queue ≡ true
    → (b' : Broker) × (from_client m b ≡ some b') × (workers b' ≡ workers b)
unfolding from_client
from_client-workers m b h = elim (List-cases b.worker_queue) [
  | inl e ↦ absurd (let f = rw e at h in cc)
  | inr (w, rest, e) ↦
      let job : Job = record {
        worker_addr = w;
        client_addr = m.client_addr;
        request = m.request;
      } in
      (
        record b { worker_queue = rest; jobs = b.jobs ++ job ∷ [] },
        rw e refl,
        rw e (
            ap (λ l. l ++ rest) (map_snoc b.jobs job)
            ∙ append_assoc (map (λ (i : Job). i.worker_addr) b.jobs) (w ∷ []) rest),
      )
]

take_frontend-workers :
    (m : Option FromClient) (polled : Bool) (t : Turn)
    → (polled ≡ true → has_worker (broker_of t).worker_queue ≡ true)
    → (u : Turn) × (take_frontend m polled t ≡ some u)
      × (workers (broker_of u) ≡ workers (broker_of t))
unfolding take_frontend
take_frontend-workers m polled (breaks b) h = (breaks b, refl, refl)
take_frontend-workers none polled (goes_on b) h = (goes_on b, refl, refl)
take_frontend-workers (some m) false (goes_on b) h = (goes_on b, refl, refl)
take_frontend-workers (some m) true (goes_on b) h =
    let (b', made, same) = from_client-workers m b (h refl) in
    (goes_on b', rw (made, take_frontend) refl, same)

-- A round never takes a worker from an empty queue, and adds just the worker that it heard from.
turn-workers :
    (a : Arrived) (b : Broker)
    → (u : Turn) × (turn a b ≡ some u) × (workers (broker_of u) ≡ workers b ++ worker_of a.backend)
unfolding turn
turn-workers a b =
    let (added, kept) = take_backend-workers a.backend b in
    let (u, made, same) =
      take_frontend-workers a.frontend (has_worker b.worker_queue) (take_backend a.backend b)
        kept in
    (u, made, same ∙ added)

-- How the loop ends, from a broker on.
abbrev Ends : List Arrived → Broker → Type 0
Ends arrived b =
    (b' : Broker) × (n : ℕ) × (main_loop arrived b ≡ some b')
    × (workers b' ≡ workers b ++ arrivals (take n arrived))

main_loop-turn :
    (a : Arrived) (rest : List Arrived) (b : Broker) (u : Turn)
    → turn a b ≡ some u
    → workers (broker_of u) ≡ workers b ++ worker_of a.backend
    → Ends rest (broker_of u)
    → Ends (a ∷ rest) b
unfolding main_loop
main_loop-turn a rest b (breaks b') made same later = (
  b',
  1,
  rw (made, main_loop) refl,
  same ∙ ap (λ l. workers b ++ l) (sym (append-nil (worker_of a.backend))),
)
main_loop-turn a rest b (goes_on u) made same (b', n, ends, rest_same) = (
  b',
  suc n,
  rw (made, main_loop) ends,
  rest_same
      ∙ ap (λ l. l ++ arrivals (take n rest)) same
      ∙ append_assoc (workers b) (worker_of a.backend) (arrivals (take n rest)),
)

-- Whatever arrives, the loop never takes a worker from an empty queue, and for some number of
-- rounds the workers that were given jobs, in the order of the jobs, and then those that wait are
-- the workers heard from in these rounds, in that order, behind those that there were before.
pub main_loop-workers :
    (arrived : List Arrived) (b : Broker)
    → (b' : Broker) × (n : ℕ) × (main_loop arrived b ≡ some b')
      × (workers b' ≡ workers b ++ arrivals (take n arrived))
main_loop-workers [] b = unfold main_loop in (b, 0, refl, sym (append-nil (workers b)))
main_loop-workers (a ∷ rest) b =
    let (u, made, same) = turn-workers a b in
    main_loop-turn a rest b u made same (main_loop-workers rest (broker_of u))
