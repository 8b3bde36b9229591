-- ===== src/Broker/Farm/Tests.antt =====
-- The clients, the workers and the broker on a concrete run.
use canna.Prelude.{ℕ, ◌≡◌, ◌≤◌, ◌⊎◌, refl, true, List, [], ◌∷◌, none, map}
use canna.Core.{set_id, digits}
use canna.Broker.{take_backend, take_frontend, from_worker, from_client}
use canna.Broker.Farm.{
  Client, fresh, answered, Worker, starting, Farm, no_worker, hears_ready, hears_reply, no_client,
  gives, Step, asks, registers, works, rounds, set_ids, all_distinct, started, Runs, begins, next,
  hello, ok,
}
use canna.Broker.Farm.Kept.{is_over}
use canna.Broker.Farm.Ends.{identity_of, AllServed, Runs-ends}

abbrev client_ids : List (ℕ × ℕ)
client_ids =
    (1, 1) ∷ (1, 2) ∷ (1, 3) ∷ (1, 4) ∷ (1, 5) ∷ (1, 6) ∷ (1, 7) ∷ (1, 8) ∷ (1, 9) ∷ (1, 10) ∷ []

abbrev worker_ids : List (ℕ × ℕ)
worker_ids = (2, 1) ∷ (2, 2) ∷ (2, 3) ∷ []

abbrev other_clients : List Client
other_clients =
    map fresh (
      set_ids
        ((1, 2) ∷ (1, 3) ∷ (1, 4) ∷ (1, 5) ∷ (1, 6) ∷ (1, 7) ∷ (1, 8) ∷ (1, 9) ∷ (1, 10) ∷ []))

abbrev other_workers : List Worker
other_workers = map starting (set_ids ((2, 2) ∷ (2, 3) ∷ []))

-- A client asks, a worker registers, is heard, gets the request and answers, and `main` sends the
-- answer on.
abbrev after_one : (g : Farm) × Runs (started client_ids worker_ids) 6 g
unfolding started take_backend from_worker take_frontend from_client set_id digits
after_one = (
  _,
  next
      (next
        (next
          (next
            (next (next begins (asks [] other_clients (set_id 1 1) refl))
              (registers [] other_workers (set_id 2 1) refl))
            (rounds refl refl (hears_ready [] other_workers (set_id 2 1) refl refl) no_client refl))
          (rounds {m = none} refl refl no_worker
            (gives [] other_workers [] other_clients _ _ (set_id 1 1)
              (record { worker_addr = set_id 2 1; client_addr = set_id 1 1; request = hello }) refl
              refl refl refl refl refl)
            refl))
        (works [] other_workers (set_id 2 1) (set_id 1 1) refl))
      (rounds refl refl
        (hears_reply [] other_workers [] other_clients (set_id 2 1) (set_id 1 1) (set_id 1 1) ok
          refl refl refl)
        no_client refl),
)

after_one_clients : after_one.0.clients ≡ answered (set_id 1 1) ok ∷ other_clients
unfolding started take_backend from_worker take_frontend from_client set_id digits
after_one_clients = refl

own_clients : all_distinct (set_ids client_ids) ≡ true
unfolding set_id digits
own_clients = refl

own_workers : all_distinct (set_ids worker_ids) ≡ true
unfolding set_id digits
own_workers = refl

Runs-ends_example :
    (6 ≤ 46)
    × (map identity_of after_one.0.clients ≡ set_ids client_ids)
    × (((is_over after_one.0.turn ≡ true) × AllServed after_one.0.clients)
        ⊎ ((h : Farm) × Step after_one.0 h))
Runs-ends_example = Runs-ends client_ids worker_ids refl refl own_clients own_workers after_one.1
