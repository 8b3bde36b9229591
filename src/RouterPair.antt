-- ===== src/RouterPair.antt =====
-- example/rrclient.cpp and rrnode.cpp: two programs that talk over ROUTER sockets, and the messages
-- that are on their way. A ROUTER socket takes the first frame for the identity of the receiver and
-- drops a message for an identity that it does not know; what is received has the identity of the
-- sender in its place.
pub mod Acks
pub mod Exchange
mod Tests
use canna.Prelude.{ℕ, Bool, true, false, List, [], ◌∷◌, ◌++◌, if◌then◌else◌, ◌&&◌}
use canna.Broker.{Frame, frame_eq}

-- "APPPLE", "APPPLE1", "PURPLE" and "PURPLE1"
abbrev pub apple : Frame
apple = b'A' ∷ b'P' ∷ b'P' ∷ b'P' ∷ b'L' ∷ b'E' ∷ []

abbrev pub apple1 : Frame
apple1 = b'A' ∷ b'P' ∷ b'P' ∷ b'P' ∷ b'L' ∷ b'E' ∷ b'1' ∷ []

abbrev pub purple : Frame
purple = b'P' ∷ b'U' ∷ b'R' ∷ b'P' ∷ b'L' ∷ b'E' ∷ []

abbrev pub purple1 : Frame
purple1 = b'P' ∷ b'U' ∷ b'R' ∷ b'P' ∷ b'L' ∷ b'E' ∷ b'1' ∷ []

-- "Hello World!!!", "ACK" and "hello world"
abbrev pub greeting : Frame
greeting =
    b'H' ∷ b'e' ∷ b'l' ∷ b'l' ∷ b'o' ∷ b' ' ∷ b'W' ∷ b'o' ∷ b'r' ∷ b'l' ∷ b'd' ∷ b'!' ∷ b'!' ∷ b'!'
    ∷ []

abbrev pub ack : Frame
ack = b'A' ∷ b'C' ∷ b'K' ∷ []

abbrev pub hello : Frame
hello = b'h' ∷ b'e' ∷ b'l' ∷ b'l' ∷ b'o' ∷ b' ' ∷ b'w' ∷ b'o' ∷ b'r' ∷ b'l' ∷ b'd' ∷ []

-- A message with the identity of its sender, as two frames are received.
abbrev pub Message : Type 0
Message = Frame × Frame

-- What waits for a socket, and what its program has printed of it.
pub record Inbox : Type 0 where
  pub waiting : List Message
  pub printed : List Message

-- `socket` and `back` of the client, and `sink` of the node; its `front` receives nothing.
pub record Pair : Type 0 where
  pub socket : Inbox
  pub back : Inbox
  pub sink : Inbox

abbrev pub empty : Inbox
empty = record { waiting = []; printed = [] }

unfoldable pub new_pair : Pair
new_pair = record { socket = empty; back = empty; sink = empty }

-- `canna_sendmore` of the receiver and `canna_send` of the text by the socket `self`, whose only
-- peer is `peer`; `takes` is whether that is connected, and can still take a message.
unfoldable pub send_to : (self peer : Frame) (takes : Bool) (receiver text : Frame) → Inbox → Inbox
send_to self peer takes receiver text i =
    if frame_eq receiver peer && takes
    then record i { waiting = i.waiting ++ (self, text) ∷ [] }
    else i

-- Where the poll reports the socket, two frames are received. `arrived` is whether the first of the
-- messages that wait has come in.
unfoldable pub receive : (arrived : Bool) → Inbox → Inbox
receive arrived i = elim i.waiting [
  | [] ↦ i
  | m ∷ rest ↦ if arrived then record { waiting = rest; printed = i.printed ++ m ∷ [] } else i
]

-- Whether there is something to receive.
unfoldable pub reports : (arrived : Bool) → Inbox → Bool
reports arrived i = elim i.waiting [ [] ↦ false | m ∷ rest ↦ arrived ]

-- One round of the loop of rrclient.cpp.
unfoldable pub client_round : (takes on_socket on_back : Bool) → Pair → Pair
client_round takes on_socket on_back p = record {
  sink = send_to apple purple takes purple greeting p.sink;
  socket = receive on_socket p.socket;
  back = receive on_back p.back;
}

-- One round of the loop of rrnode.cpp.
unfoldable pub node_round : (on_sink takes_ack takes_hello : Bool) → Pair → Pair
node_round on_sink takes_ack takes_hello p = record {
  sink = receive on_sink p.sink;
  socket =
      if reports on_sink p.sink
      then send_to purple apple takes_ack apple ack p.socket
      else p.socket;
  back = send_to purple1 apple1 takes_hello apple1 hello p.back;
}

-- The rounds of both, in any order.
pub data Round : Type 0 where
  client : (takes on_socket on_back : Bool) → Round
  node : (on_sink takes_ack takes_hello : Bool) → Round

unfoldable pub run_round : Round → Pair → Pair
run_round (client takes on_socket on_back) p = client_round takes on_socket on_back p
run_round (node on_sink takes_ack takes_hello) p = node_round on_sink takes_ack takes_hello p

unfoldable pub run_rounds : List Round → Pair → Pair
run_rounds [] p = p
run_rounds (r ∷ rounds) p = run_rounds rounds (run_round r p)
