-- ===== src/Broker/Tests.antt =====
-- The broker on concrete messages.
use canna.Prelude.{ℕ, ◌≡◌, ◌==◌, if◌then◌else◌, refl, List, [], ◌∷◌, ◌++◌, none, some, take}
use canna.Broker.{
  ready, Broker, FromWorker, goes_on, breaks, Arrived, from_worker, from_client, take_backend,
  take_frontend, turn, main_loop,
}
use canna.Core.{set_id}
use canna.Broker.Replies.{answered, from_worker-set_id}
use canna.Broker.Balance.{workers, arrivals, main_loop-workers}

abbrev idle : Broker
idle = record { worker_queue = []; client_count = 10; replies = []; jobs = [] }

-- The workers 1 and 2 become ready; then the client 7 asks, and the worker 1 answers.
abbrev day : List Arrived
day =
    record {
      backend = some (record { worker = 1 ∷ []; client_addr = ready; reply = [] });
      frontend = none;
    }
    ∷ record {
      backend = some (record { worker = 2 ∷ []; client_addr = ready; reply = [] });
      frontend = none;
    }
    ∷ record { backend = none; frontend = some (record { client_addr = 7 ∷ []; request = 5 ∷ [] }) }
    ∷ record {
      backend = some (record { worker = 1 ∷ []; client_addr = 7 ∷ []; reply = 6 ∷ [] });
      frontend = none;
    }
    ∷ []

day_runs :
    main_loop day idle
    ≡ some (record {
      worker_queue = (2 ∷ []) ∷ (1 ∷ []) ∷ [];
      client_count = 9;
      replies = (7 ∷ [], 6 ∷ []) ∷ [];
      jobs = record { worker_addr = 1 ∷ []; client_addr = 7 ∷ []; request = 5 ∷ [] } ∷ [];
    })
unfolding main_loop turn take_backend take_frontend from_worker from_client
day_runs = refl

main_loop-workers_example :
    (b : Broker) × (n : ℕ) × (main_loop day idle ≡ some b)
    × (workers b ≡ workers idle ++ arrivals (take n day))
main_loop-workers_example = main_loop-workers day idle

-- The worker 1 answers the client "00FF-0001".
abbrev answer : FromWorker
answer = record { worker = 1 ∷ []; client_addr = set_id 255 1; reply = 6 ∷ [] }

from_worker-set_id_test : from_worker answer idle ≡ (
    if idle.client_count == 1
    then breaks (answered answer idle)
    else goes_on (answered answer idle))
from_worker-set_id_test = from_worker-set_id answer idle 255 1 refl
