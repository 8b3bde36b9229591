-- ===== src/Redis/Tests.antt =====
-- A client that connects three times.
use canna.Prelude.{◌≡◌, List, [], ◌∷◌, some}
use canna.Redis.{
  RedisClient, no_context, with_error, connected, new_client, destroy, Call, initializes, connects,
  run,
}
use canna.Redis.Freed.{destroy-run}

abbrev tries : List Call
tries = connects no_context ∷ connects (with_error 1) ∷ connects (connected 2) ∷ []

destroy-run_test :
    (d : RedisClient) × (destroy (run (initializes (b'h' ∷ []) 6379 ∷ tries) new_client) ≡ some d)
    × (d.allocated ≡ 1 ∷ 2 ∷ [])
    × (d.freed ≡ 2 ∷ [])
destroy-run_test = destroy-run (b'h' ∷ []) 6379 tries
