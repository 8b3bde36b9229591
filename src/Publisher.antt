-- ===== src/Publisher.antt =====
-- example/peering.cpp: the loop of a broker that tells its peers how many workers are free, as two
-- messages, the name and "ping".
pub mod Heard
mod Tests
use canna.Prelude.{ℕ, Bool, true, false, List, [], ◌∷◌, ◌++◌, Option, none, some}
use canna.Broker.{Frame}

-- "ping"
abbrev pub ping : Frame
ping = b'p' ∷ b'i' ∷ b'n' ∷ b'g' ∷ []

-- What is still to come on `statefe`, the pairs printed, and what `statebe` has published.
pub record Publisher : Type 0 where
  pub statefe : List Frame
  pub printed : List (Frame × Frame)
  pub statebe : List Frame

unfoldable pub new_publisher : List Frame → Publisher
new_publisher statefe = record { statefe = statefe; printed = []; statebe = [] }

-- Two messages are received; `none` where this waits for ever.
unfoldable pub hear_peer : Publisher → Option Publisher
hear_peer p = elim p.statefe [
  | [] ↦ none
  | peer_name ∷ rest ↦ elim rest [
    | [] ↦ none
    | available ∷ later ↦
        some (record p { statefe = later; printed = p.printed ++ (peer_name, available) ∷ [] })
  ]
]

-- One round of the loop, for whether the poll reports `statefe`.
unfoldable pub publish_round : Frame → Bool → Publisher → Option Publisher
publish_round self true p = hear_peer p
publish_round self false p = some (record p { statebe = p.statebe ++ self ∷ ping ∷ [] })

unfoldable pub publish_loop : Frame → List Bool → Publisher → Option Publisher
publish_loop self [] p = some p
publish_loop self (polled ∷ rest) p = elim (publish_round self polled p) [
  | none ↦ none
  | some p' ↦ publish_loop self rest p'
]
