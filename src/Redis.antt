-- ===== src/Redis.antt =====
-- nameserver/redis_client.h and redis_client.cpp: the wrapper of a redis context. What redisConnect
-- answers is given; a context is told by a number.
pub mod Freed
mod Tests
use canna.Prelude.{ℕ, Bool, true, false, List, [], ◌∷◌, ◌++◌, Option, none, some}
use canna.Broker.{Frame}

-- `m_context`, which the constructor does not set.
pub data Pointer : Type 0 where
  unset null : Pointer
  context : ℕ → Pointer

-- What redisConnect answers: a null pointer, a context with an error, or a context.
pub data Reply : Type 0 where
  no_context : Reply
  with_error connected : ℕ → Reply

-- `class redis_client`, with the contexts that were allocated and freed so far, in order.
pub record RedisClient : Type 0 where
  pub context_of : Pointer
  pub host : Frame
  pub port : ℕ
  pub allocated : List ℕ
  pub freed : List ℕ

unfoldable pub new_client : RedisClient
new_client = record { context_of = unset; host = []; port = 0; allocated = []; freed = [] }

unfoldable pub initialize : Frame → ℕ → RedisClient → RedisClient
initialize host port c = record c { context_of = null; host = host; port = port }

abbrev pub pointer_of : Reply → Pointer
pointer_of no_context = null
pointer_of (with_error n) = context n
pointer_of (connected n) = context n

abbrev pub given : Reply → List ℕ
given no_context = []
given (with_error n) = n ∷ []
given (connected n) = n ∷ []

-- `connect`, with whether it returns 0 or -1.
unfoldable pub connect : Reply → RedisClient → RedisClient × Bool
connect reply c = (
  record c { context_of = pointer_of reply; allocated = c.allocated ++ given reply },
  elim reply [ no_context ↦ false | with_error n ↦ false | connected n ↦ true ],
)

unfoldable pub set_host : Frame → RedisClient → RedisClient
set_host host c = record c { host = host }

unfoldable pub set_port : ℕ → RedisClient → RedisClient
set_port port c = record c { port = port }

-- `~redis_client`; `none` where it follows the pointer that was never set.
unfoldable pub destroy : RedisClient → Option RedisClient
destroy c = elim c.context_of [
  | unset ↦ none
  | null ↦ some c
  | context n ↦ some (record c { freed = c.freed ++ n ∷ [] })
]

-- The calls that a program makes.
pub data Call : Type 0 where
  initializes : Frame → ℕ → Call
  connects : Reply → Call
  sets_host : Frame → Call
  sets_port : ℕ → Call

unfoldable pub run : List Call → RedisClient → RedisClient
run [] c = c
run (initializes host port ∷ calls) c = run calls (initialize host port c)
run (connects reply ∷ calls) c = run calls (connect reply c).0
run (sets_host host ∷ calls) c = run calls (set_host host c)
run (sets_port port ∷ calls) c = run calls (set_port port c)
