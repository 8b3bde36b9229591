-- ===== src/Peering/Tests.antt =====
-- The peering broker at concrete inputs.
use canna.Prelude.{◌≡◌, refl, List, [], ◌∷◌, ◌++◌, none, some}
use canna.Broker.{Frame, ready}
use canna.Peering.{
  Peering, Found, main_loop, new_peering, success, to_client, to_peer, to_cloud, to_worker,
  ack_echo, cloud_text, world, frontends_loop, main_round, from_worker, from_client, from_peer,
  worker_turn,
}
use canna.Peering.Answered.{from_worker-answers}
use canna.Peering.Capacity.{IsValid, workers, heard, main_loop-heard}

abbrev peer : Frame
peer = b'D' ∷ b'C' ∷ []

abbrev worker : Frame
worker = b'w' ∷ []

abbrev client : Frame
client = b'c' ∷ []

-- A worker is ready, a client asks while the peer calls, and the worker answers.
abbrev found : List Found
found =
    record {
      localbe = some (record { work_identity = worker; client_addr = ready });
      polls = record { localfe = some client; cloudfe = some peer } ∷ [];
    }
    ∷ record {
      localbe = some (record { work_identity = worker; client_addr = client });
      polls = record { localfe = none; cloudfe = none } ∷ [];
    }
    ∷ []

new_peering-IsValid : IsValid (new_peering (peer ∷ []))
unfolding new_peering
new_peering-IsValid = record { peered = λ e. cc; counted = refl }

sent_test :
    main_loop found (new_peering (peer ∷ []))
    ≡ some (record {
      cloud = some peer;
      capacity = 1;
      worker_queue = worker ∷ [];
      sent =
          to_peer peer ack_echo
          ∷ to_cloud peer cloud_text
          ∷ to_worker worker client world
          ∷ to_client client success
          ∷ [];
    })
unfolding main_loop main_round frontends_loop from_worker from_peer from_client new_peering
sent_test = refl

-- Without a peer the first request of a client fails.
no_peer_test : main_loop found (new_peering []) ≡ none
unfolding main_loop main_round frontends_loop from_worker from_peer from_client new_peering
no_peer_test = refl

main_loop-heard_example :
    (p' : Peering) × (main_loop found (new_peering (peer ∷ [])) ≡ some p')
    × IsValid p'
    × (workers p' ≡ workers (new_peering (peer ∷ [])) ++ heard found)
main_loop-heard_example = main_loop-heard found (new_peering (peer ∷ [])) new_peering-IsValid

-- The worker that served the client is handed to it again.
abbrev ready_broker : Peering
ready_broker = record { cloud = some peer; capacity = 1; worker_queue = worker ∷ []; sent = [] }

abbrev handed : Peering
handed = record {
  cloud = some peer;
  capacity = 0;
  worker_queue = [];
  sent = to_cloud peer cloud_text ∷ to_worker worker client world ∷ [];
}

handed_on : from_client client ready_broker ≡ some handed
unfolding from_client
handed_on = refl

from_worker-answers_test :
    (p : Frame) × (ready_broker.cloud ≡ some p)
    × ((from_worker (some (worker_turn worker client world)) handed).sent
        ≡ ready_broker.sent
          ++ to_cloud p cloud_text ∷ to_worker worker client world ∷ to_client client success ∷ [])
    × ((from_worker (some (worker_turn worker client world)) handed).worker_queue
        ≡ [] ++ worker ∷ [])
from_worker-answers_test = from_worker-answers client worker [] ready_broker refl refl handed_on
