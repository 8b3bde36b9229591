-- ===== src/Zmq.antt =====
-- core/canna_core.cpp: canna_recv, canna_send and canna_sendmore, and the sockets they work on. A
-- socket of ZeroMQ is the frames that have come in, in order, and the calls made on it, in order.
use Prim.Native.String.{String}
use canna.Prelude.{ℕ, List, [], ◌∷◌, ◌++◌, Option, none, some}

abbrev pub Frame : Type 0
Frame = List ℕ

-- ZMQ_REQ, ZMQ_REP, ZMQ_PUB and ZMQ_SUB
pub data Kind : Type 0 where
  zmq_req zmq_rep zmq_pub zmq_sub : Kind

pub data Call : Type 0 where
  binds connects identifies subscribes : String → Call
  sends sends_more : Frame → Call

pub record Endpoint : Type 0 where
  pub kind : Kind
  pub inbox : List Frame
  pub calls : List Call

abbrev pub log : Call → Endpoint → Endpoint
log c e = record e { calls = e.calls ++ c ∷ [] }

-- `canna_recv`: `none` while no frame has come in.
unfoldable pub canna_recv : Endpoint → Option (Endpoint × Frame)
canna_recv e = elim e.inbox [ [] ↦ none | frame ∷ rest ↦ some (record e { inbox = rest }, frame) ]

unfoldable pub canna_send : Frame → Endpoint → Endpoint
canna_send frame e = log (sends frame) e

unfoldable pub canna_sendmore : Frame → Endpoint → Endpoint
canna_sendmore frame e = log (sends_more frame) e
