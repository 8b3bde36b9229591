-- ===== src/Cluster/Clients.antt =====
-- The requests and the statuses of a client of the cluster broker.
use canna.Prelude.{
  ℕ, zero, suc, ◌+◌, ◌≡◌, refl, ap, ◌∙◌, List, [], ◌∷◌, Option, arith, length, min, replicate, map,
  take,
}
use canna.Broker.{Frame}
use canna.Cluster.{work, client_status, client_burst}

-- A client sends its requests in step with the replies: in a burst no more than one of them is
-- without a status, and none when the burst has ended; the statuses are those of the polls, in order.
pub client_burst-statuses :
    (burst : ℕ) (polls : List (Option Frame))
    → ((client_burst burst polls).0 ≡ replicate (min burst (length polls + 1)) work)
      × ((client_burst burst polls).1 ≡ take burst (map client_status polls))
unfolding client_burst
client_burst-statuses zero polls = (ap (λ n. replicate n work) zero_min, refl)
  where
    zero_min : 0 ≡ min 0 (length polls + 1)
    zero_min = omega arith
client_burst-statuses (suc burst) [] =
    let one : 1 ≡ min (suc burst) 1 = omega arith in (ap (λ n. replicate n work) one, refl)
client_burst-statuses (suc burst) (reply ∷ polls) =
    let (requests, statuses) = client_burst-statuses burst polls in
    let more : suc (min burst (length polls + 1)) ≡ min (suc burst) (suc (length polls) + 1) =
      omega arith in
    (
      ap (λ l. work ∷ l) requests ∙ ap (λ n. replicate n work) more,
      ap (λ l. client_status reply ∷ l) statuses,
    )
