-- ===== src/DbServer/Start.antt =====
-- dbserver/main.cpp: `initialize` and the start of `main`, up to its loop. What the system, hiredis
-- and the MongoDB client answer is a parameter; what they print is left out.
use canna.Prelude.{ℕ, ◌≡◌, ◌↔◌, refl, Bool, true, false, List, [], ◌∷◌, if◌then◌else◌}
use canna.Daemon.{Ended, exits, returns, fails, daemon_init, Answers}

-- What redisConnect gives: a null pointer, a context with an error, or a context.
pub data Redis : Type 0 where
  no_context broken ready : Redis

-- What the program creates and destroys.
pub data Resource : Type 0 where
  redis_context client database collection ping_command mongo_reply json document : Resource

pub data Use : Type 0 where
  creates destroys : Resource → Use

-- How the start ends: `exit(0)`, a return of `main` with a code, or the loop.
pub data Started : Type 0 where
  exits_with : ℕ → Started
  serves : Started

pub record Setup : Type 0 where
  pub daemon : Answers
  pub redis : Redis
  pub pings : Bool
  pub inserts : Bool

-- Whether the result is 0.
abbrev goes_on : Ended → Bool
goes_on exits = false
goes_on returns = true
goes_on (fails code) = false

-- `initialize`: whether it returns.
unfoldable pub initialize : Answers → ℕ → Bool
initialize a mode = goes_on (daemon_init a mode).1

-- From the reply to the ping on; a failed insert is only printed.
unfoldable pub after_ping : Bool → Bool → List Use × Started
after_ping false inserts = ([], exits_with 1)
after_ping true inserts = (
  creates mongo_reply
      ∷ creates json
      ∷ creates document
      ∷ destroys document
      ∷ destroys mongo_reply
      ∷ destroys ping_command
      ∷ destroys json
      ∷ [],
  serves,
)

unfoldable pub start_mongo : Bool → Bool → List Use × Started
start_mongo pings inserts =
    let (uses, started) = after_ping pings inserts in
    (creates client ∷ creates database ∷ creates collection ∷ creates ping_command ∷ uses, started)

unfoldable pub after_connect : Redis → Bool → Bool → List Use × Started
after_connect no_context pings inserts = ([], exits_with 1)
after_connect broken pings inserts = (creates redis_context ∷ [], exits_with 1)
after_connect ready pings inserts =
    let (uses, started) = start_mongo pings inserts in (creates redis_context ∷ uses, started)

-- `main` up to its loop.
unfoldable pub start : Setup → List Use × Started
start s =
    if initialize s.daemon 1 then after_connect s.redis s.pings s.inserts else ([], exits_with 0)

abbrev outcome : Ended → Redis → Bool → Bool → List Use × Started
outcome e redis pings inserts =
    if goes_on e then after_connect redis pings inserts else ([], exits_with 0)

outcome-serves :
    (e : Ended) (redis : Redis) (pings inserts : Bool)
    → ((outcome e redis pings inserts).1 ≡ serves)
      ↔ ((e ≡ returns) × (redis ≡ ready) × (pings ≡ true))
unfolding after_connect start_mongo after_ping
outcome-serves exits redis pings inserts = (λ h. absurd cc, λ (h, _, _). absurd cc)
outcome-serves (fails code) redis pings inserts = (λ h. absurd cc, λ (h, _, _). absurd cc)
outcome-serves returns no_context pings inserts = (λ h. absurd cc, λ (_, h, _). absurd cc)
outcome-serves returns broken pings inserts = (λ h. absurd cc, λ (_, h, _). absurd cc)
outcome-serves returns ready false inserts = (λ h. absurd cc, λ (_, _, h). absurd cc)
outcome-serves returns ready true inserts = (λ h. (refl, refl, refl), λ h. refl)

-- The process whose `main` reaches the loop is just the one for which daemon_init returns 0, with a
-- redis context without an error and an answer to the ping, whether or not the insert succeeds.
pub start-serves :
    (s : Setup)
    → ((start s).1 ≡ serves)
      ↔ (((daemon_init s.daemon 1).1 ≡ returns) × (s.redis ≡ ready) × (s.pings ≡ true))
unfolding start initialize
start-serves s = outcome-serves (daemon_init s.daemon 1).1 s.redis s.pings s.inserts
