-- ===== src/Peering/Answered.antt =====
-- The way of a request through a worker and back.
use canna.Prelude.{
  ◌≡◌, refl, sym, inl, inr, false, List, [], ◌∷◌, ◌++◌, some, some_inj, Option-cases, append_assoc,
}
use canna.Broker.{Frame, ready, frame_eq}
use canna.Peering.{
  to_client, to_cloud, to_worker, Peering, success, cloud_text, world, from_worker, from_client,
  worker_turn,
}

-- A request that the broker hands to the first worker of its queue, for a client whose identity is
-- not "READY": once that worker has sent it back, the broker has sent the cloud's text to its peer,
-- the request to the worker and "SUCCESS" to just this client, in this order, and the worker stands
-- at the end of the queue.
pub from_worker-answers :
    (identity worker : Frame) (rest : List Frame) (p : Peering) {p' : Peering}
    → frame_eq identity ready ≡ false
    → p.worker_queue ≡ worker ∷ rest
    → from_client identity p ≡ some p'
    → (peer : Frame) × (p.cloud ≡ some peer)
      × ((from_worker (some (worker_turn worker identity world)) p').sent
          ≡ p.sent
            ++ to_cloud peer cloud_text
              ∷ to_worker worker identity world
              ∷ to_client identity success
              ∷ [])
      × ((from_worker (some (worker_turn worker identity world)) p').worker_queue
          ≡ rest ++ worker ∷ [])
unfolding from_client from_worker worker_turn
from_worker-answers identity worker rest p h queue e = elim (Option-cases p.cloud) [
  | inl lone ↦ absurd (let f = rw lone at e in cc)
  | inr (peer, known) ↦
      let same = some_inj (rw (known, queue) at e) in
      (
        peer,
        known,
        rw (h, sym same)
            (append_assoc p.sent (to_cloud peer cloud_text ∷ to_worker worker identity world ∷ [])
              (to_client identity success ∷ [])),
        rw (h, sym same) refl,
      )
]
