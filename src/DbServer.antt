-- ===== src/DbServer.antt =====
-- dbserver/main.cpp: the loop of the database server, which runs each request as a redis command
-- and sends the reply back. A frame is its bytes.
pub mod Answers
pub mod Start
mod Tests
use canna.Prelude.{
  ℕ, zero, suc, ◌+◌, ◌-◌, ◌≡◌, Bool, true, false, List, [], ◌∷◌, ◌++◌, Option, none, some,
  if◌then◌else◌, ltb, ◌==◌, length, replicate,
}
use canna.Broker.{Frame}

-- What the program relies on of a ZMQ_REP socket, by the requests that are still to come, the
-- replies sent, and whether a request waits for its reply: `recv` takes the next request, but
-- throws while the last one has no reply; `send` replies to it.
pub record RepSocket (Socket : Type 0) : Type 0 where
  pub recv : Socket → Option (Frame × Socket)
  pub send : Frame → Socket → Option Socket
  pub to_come : Socket → List Frame
  pub replied : Socket → List Frame
  pub asked : Socket → Bool
  pub recv-next :
      (s : Socket) (request : Frame) (rest : List Frame)
      → asked s ≡ false
      → to_come s ≡ request ∷ rest
      → (s' : Socket) × (recv s ≡ some (request, s'))
        × (asked s' ≡ true)
        × (to_come s' ≡ rest)
        × (replied s' ≡ replied s)
  pub recv-throws : (s : Socket) → asked s ≡ true → recv s ≡ none
  pub send-reply :
      (s : Socket) (reply : Frame)
      → asked s ≡ true
      → (s' : Socket) × (send reply s ≡ some s')
        × (asked s' ≡ false)
        × (to_come s' ≡ to_come s)
        × (replied s' ≡ replied s ++ reply ∷ [])

-- `COMMAND_LEN`
abbrev pub command_len : ℕ
command_len = 256

-- `command` after `memset` and `memcpy`.
unfoldable pub command : Frame → List ℕ
command request = request ++ replicate (command_len - length request) 0

-- The string in the array, up to its first 0; `none` where reading it runs past the end.
unfoldable pub text_of : List ℕ → Option (List ℕ)
text_of [] = none
text_of (c ∷ rest) =
    let later = text_of rest in
    elim (c == 0) [
      | true ↦ some []
      | false ↦ elim later [ none ↦ none | some text ↦ some (c ∷ text) ]
    ]

-- How the loop stands after some rounds: it goes on, `recv` or `send` has thrown, or `command` is
-- read past its end or `result` is null.
pub data Outcome (Socket Redis : Type 0) : Type 0 where
  goes_on : (s : Socket) (d : Redis) → Outcome Socket Redis
  throws : (s : Socket) (d : Redis) → Outcome Socket Redis
  faults : (s : Socket) (d : Redis) → Outcome Socket Redis

-- `redis_command` is what `redisCommand` replies, `none` for a null reply, and the store after it.
module _ {Socket Redis : Type 0} (rep : RepSocket Socket)
    (redis_command : List ℕ → Redis → Option Frame × Redis) where
  unfoldable pub reply_with : Option Frame × Redis → Socket → Outcome Socket Redis
  reply_with (none, d) s = faults s d
  reply_with (some result, d) s = elim (rep.send result s) [
    | none ↦ throws s d
    | some s' ↦ goes_on s' d
  ]

  -- One round of the loop.
  unfoldable pub serve_request : Socket → Redis → Outcome Socket Redis
  serve_request s d = elim (rep.recv s) [
    | none ↦ throws s d
    | some (request, s') ↦ elim (ltb command_len (length request)) [
      | true ↦ goes_on s' d
      | false ↦ elim (text_of (command request)) [
        | none ↦ faults s' d
        | some text ↦ reply_with (redis_command text d) s'
      ]
    ]
  ]

  -- So many rounds.
  unfoldable pub main_loop : ℕ → Socket → Redis → Outcome Socket Redis
  main_loop zero s d = goes_on s d
  main_loop (suc rounds) s d = elim (serve_request s d) [
    | goes_on s' d' ↦ main_loop rounds s' d'
    | throws s' d' ↦ throws s' d'
    | faults s' d' ↦ faults s' d'
  ]
