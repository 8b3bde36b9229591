-- ===== src/Peering/Capacity.antt =====
-- The capacity of the broker is the number of workers that wait.
use canna.Prelude.{
  ◌+◌, ◌-◌, ◌≡◌, ◌≢◌, refl, sym, ap, ◌∙◌, inl, inr, false, List, [], ◌∷◌, ◌++◌, Option, none, some,
  arith, ◌==◌, length, length-snoc, Bool-cases, List-cases, Option-cases, append_assoc, append-nil,
}
use canna.Broker.{Frame, ready, frame_eq}
use canna.Peering.{
  Sent, to_client, to_peer, to_cloud, to_worker, Peering, FromWorker, Frontends, Found, success,
  ack_echo, cloud_text, world, from_worker, from_peer, from_client, frontends_loop, main_round,
  main_loop,
}

-- The workers that were given a request, in order.
abbrev pub served : List Sent → List Frame
served [] = []
served (to_worker w c t ∷ rest) = w ∷ served rest
served (m ∷ rest) = served rest

-- The workers heard from.
abbrev pub worker_of : Option FromWorker → List Frame
worker_of none = []
worker_of (some m) = m.work_identity ∷ []

abbrev pub heard : List Found → List Frame
heard [] = []
heard (f ∷ rest) = worker_of f.localbe ++ heard rest

-- There is a peer, and the counter is right.
pub record IsValid (p : Peering) : Type 0 where
  pub peered : p.cloud ≢ none
  pub counted : p.capacity ≡ length p.worker_queue

abbrev pub workers : Peering → List Frame
workers p = served p.sent ++ p.worker_queue

served-append : (xs ys : List Sent) → served (xs ++ ys) ≡ served xs ++ served ys
served-append [] ys = refl
served-append (to_worker w c t ∷ xs) ys = ap (λ l. w ∷ l) (served-append xs ys)
served-append (to_client c t ∷ xs) ys = served-append xs ys
served-append (to_peer c t ∷ xs) ys = served-append xs ys
served-append (to_cloud c t ∷ xs) ys = served-append xs ys

-- A message that is not for a worker.
served-quiet :
    (xs : List Sent) (m : Sent) → served (m ∷ []) ≡ [] → served (xs ++ m ∷ []) ≡ served xs
served-quiet xs m e =
    served-append xs (m ∷ []) ∙ ap (λ l. served xs ++ l) e ∙ append-nil (served xs)

from_worker-workers :
    (m : Option FromWorker) (p : Peering)
    → IsValid p
    → IsValid (from_worker m p) × (workers (from_worker m p) ≡ workers p ++ worker_of m)
unfolding from_worker
from_worker-workers none p v = (v, sym (append-nil (workers p)))
from_worker-workers (some m) p v =
    let w = m.work_identity in
    let counted : p.capacity + 1 ≡ length (p.worker_queue ++ w ∷ []) =
      omega (arith, v.counted, length-snoc p.worker_queue w) in
    let added = sym (append_assoc (served p.sent) p.worker_queue (w ∷ [])) in
    elim (Bool-cases (frame_eq m.client_addr ready)) [
      | inl e ↦ rw e (record { peered = v.peered; counted = counted }, added)
      | inr e ↦ rw e (
        record { peered = v.peered; counted = counted },
        ap (λ l. l ++ (p.worker_queue ++ w ∷ []))
              (served-quiet p.sent (to_client m.client_addr success) refl)
            ∙ added,
      )
    ]

from_peer-workers :
    (m : Option Frame) (p : Peering)
    → IsValid p
    → IsValid (from_peer m p) × (workers (from_peer m p) ≡ workers p)
unfolding from_peer
from_peer-workers none p v = (v, refl)
from_peer-workers (some c) p v = (
  record { peered = v.peered; counted = v.counted },
  ap (λ l. l ++ p.worker_queue) (served-quiet p.sent (to_peer c ack_echo) refl),
)

from_peer-capacity : (m : Option Frame) (p : Peering) → (from_peer m p).capacity ≡ p.capacity
unfolding from_peer
from_peer-capacity none p = refl
from_peer-capacity (some c) p = refl

from_client-workers :
    (identity : Frame) (p : Peering)
    → IsValid p
    → (p.capacity == 0) ≡ false
    → (p' : Peering) × (from_client identity p ≡ some p') × IsValid p' × (workers p' ≡ workers p)
unfolding from_client
from_client-workers identity p v busy = elim (Option-cases p.cloud) [
  | inl e ↦ absurd (v.peered e)
  | inr (peer, e) ↦ elim (List-cases p.worker_queue) [
    | inl q ↦ absurd (let f = rw (v.counted, q) at busy in cc)
    | inr (w, rest, q) ↦ (
      record p {
        worker_queue = rest;
        capacity = p.capacity - 1;
        sent = p.sent ++ to_cloud peer cloud_text ∷ to_worker w identity world ∷ [];
      },
      rw (e, q) refl,
      record { peered = v.peered; counted = let n = v.counted ∙ ap length q in omega (arith, n) },
      rw q (
          ap (λ l. l ++ rest)
            (served-append p.sent (to_cloud peer cloud_text ∷ to_worker w identity world ∷ []))
          ∙ append_assoc (served p.sent) (w ∷ []) rest),
    )
  ]
]

-- The inner loop keeps the order of the workers, and does not fail.
frontends_loop-workers :
    (polls : List Frontends) (p : Peering)
    → IsValid p
    → (p' : Peering) × (frontends_loop polls p ≡ some p') × IsValid p' × (workers p' ≡ workers p)
unfolding frontends_loop
frontends_loop-workers [] p v = (p, refl, v, refl)
frontends_loop-workers (f ∷ rest) p v = elim (Bool-cases (p.capacity == 0)) [
  | inl idle ↦ (p, rw (idle, frontends_loop) refl, v, refl)
  | inr busy ↦
      let (v1, same1) = from_peer-workers f.cloudfe p v in
      elim (Option-cases f.localfe) [
        | inl quiet ↦ (from_peer f.cloudfe p, rw (busy, quiet, frontends_loop) refl, v1, same1)
        | inr (identity, e) ↦
            let busy1 = ap (λ n. n == 0) (from_peer-capacity f.cloudfe p) ∙ busy in
            let (p2, made, v2, same2) =
              from_client-workers identity (from_peer f.cloudfe p) v1 busy1 in
            let (p3, later, v3, same3) = frontends_loop-workers rest p2 v2 in
            (p3, rw (busy, e, made, frontends_loop) later, v3, same3 ∙ same2 ∙ same1)
      ]
]

main_round-workers :
    (f : Found) (p : Peering)
    → IsValid p
    → (p' : Peering) × (main_round f p ≡ some p')
      × IsValid p'
      × (workers p' ≡ workers p ++ worker_of f.localbe)
unfolding main_round
main_round-workers f p v =
    let (v1, added) = from_worker-workers f.localbe p v in
    let (p', made, v', same) = frontends_loop-workers f.polls (from_worker f.localbe p) v1 in
    (p', made, v', same ∙ added)

-- With a peer, and a counter that is right at the start, the loop does not fail whatever it finds:
-- it never takes a worker from an empty queue. The counter is the length of the queue at the end,
-- and the workers that were given requests, in that order, and then those that wait are those
-- that there were, and behind them the ones heard from, in that order.
pub main_loop-heard :
    (found : List Found) (p : Peering)
    → IsValid p
    → (p' : Peering) × (main_loop found p ≡ some p')
      × IsValid p'
      × (workers p' ≡ workers p ++ heard found)
unfolding main_loop
main_loop-heard [] p v = (p, refl, v, sym (append-nil (workers p)))
main_loop-heard (f ∷ rest) p v =
    let (p1, made, v1, same1) = main_round-workers f p v in
    let (p2, later, v2, same2) = main_loop-heard rest p1 v1 in
    (
      p2,
      rw (made, main_loop) later,
      v2,
      same2
          ∙ ap (λ l. l ++ heard rest) same1
          ∙ append_assoc (workers p) (worker_of f.localbe) (heard rest),
    )
