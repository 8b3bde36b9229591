-- ===== src/Async.antt =====
-- example/asyncclient.h: a client that names itself and sends numbered requests, with the arrays
-- that it prints into. What it receives is only printed.
pub mod Requests
mod Tests
use canna.Prelude.{
  ℕ, zero, suc, ◌+◌, false, List, [], ◌∷◌, ◌++◌, Option, none, some, if◌then◌else◌, ltb, length,
}
use canna.Broker.{Frame}
use canna.Core.{digits, set_id}

-- `sprintf` into an array of so many bytes, with the 0 behind the text; `none` where it overflows.
unfoldable pub print_into : ℕ → Frame → Option Frame
print_into size text = if ltb (length text) size then some text else none

-- "request #"
abbrev pub request_start : Frame
request_start = b'r' ∷ b'e' ∷ b'q' ∷ b'u' ∷ b'e' ∷ b's' ∷ b't' ∷ b' ' ∷ b'#' ∷ []

unfoldable pub request_text : ℕ → Frame
request_text count = request_start ++ digits false 10 10 count

-- The identity, what was sent, and `count`.
pub record AsyncClient : Type 0 where
  pub identity : Frame
  pub sent : List Frame
  pub count : ℕ

-- `start` up to its loop, with the results of the two `CANNA_RAND(0x10000)`.
unfoldable pub start : ℕ → ℕ → Option AsyncClient
start a b = elim (print_into 10 (set_id a b)) [
  | none ↦ none
  | some identity ↦ some (record { identity = identity; sent = []; count = 0 })
]

-- A round of the loop behind its 100 polls.
unfoldable pub send_next : AsyncClient → Option AsyncClient
send_next c = elim (print_into 16 (request_text (c.count + 1))) [
  | none ↦ none
  | some request ↦ some (record c { sent = c.sent ++ request ∷ []; count = c.count + 1 })
]

unfoldable pub send_rounds : ℕ → AsyncClient → Option AsyncClient
send_rounds zero c = some c
send_rounds (suc n) c = elim (send_rounds n c) [ none ↦ none | some d ↦ send_next d ]
