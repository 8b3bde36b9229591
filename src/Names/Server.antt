-- ===== src/Names/Server.antt =====
-- nameserver/name_server.h, name_server.cpp and main.cpp: the two sockets of the name server and
-- its loop. A pointer to a socket is `none` while it is null; `none` of a run is such a pointer
-- followed.
use Prim.Native.String.{String}
use canna.Prelude.{ℕ, Bool, true, false, List, [], ◌∷◌, ◌++◌, Option, none, some, if◌then◌else◌}
use canna.Daemon.{Answers, exits, returns, fails, daemon_init}
use canna.Zmq.{Frame, Kind, zmq_rep, zmq_pub, binds, connects, sends, sends_more, Endpoint, log}
use canna.Core.{dump, set_id}
use canna.Names.{Name, Groups, serve}

-- `class name_server`
pub record NameServer : Type 0 where
  pub responder : Option Endpoint
  pub publisher : Option Endpoint

unfoldable pub initialize : NameServer
initialize = record { responder = none; publisher = none }

unfoldable pub sock_create : Kind → Option Endpoint
sock_create kind = some (record { kind = kind; inbox = []; calls = [] })

-- The calls through a null pointer do nothing.
unfoldable pub sock_bind : Option Endpoint → String → Option Endpoint
sock_bind none addr = none
sock_bind (some e) addr = some (log (binds addr) e)

unfoldable pub sock_connect : Option Endpoint → String → Option Endpoint
sock_connect none addr = none
sock_connect (some e) addr = some (log (connects addr) e)

unfoldable pub sock_recv : Endpoint → Option (Endpoint × Frame)
sock_recv e = elim e.inbox [ [] ↦ none | frame ∷ rest ↦ some (record e { inbox = rest }, frame) ]

unfoldable pub sock_send : Frame → Endpoint → Endpoint
sock_send frame e = log (sends frame) e

unfoldable pub sock_sendmore : Frame → Endpoint → Endpoint
sock_sendmore frame e = log (sends_more frame) e

-- The body of `canna_dump`.
unfoldable pub sock_dump : Bool → List (List ℕ) → Bool × List ℕ
sock_dump hex parts = dump hex parts

-- The body of `canna_setid`; the name is also the identity of the socket.
unfoldable pub sock_set_id : ℕ → ℕ → List ℕ
sock_set_id a b = set_id a b

unfoldable pub responder_create : NameServer → NameServer
responder_create s = record s { responder = sock_create zmq_rep }

unfoldable pub publisher_create : NameServer → NameServer
publisher_create s = record s { publisher = sock_create zmq_pub }

unfoldable pub responder_bind : String → NameServer → NameServer
responder_bind addr s = record s { responder = sock_bind s.responder addr }

unfoldable pub publisher_bind : String → NameServer → NameServer
publisher_bind addr s = record s { publisher = sock_bind s.publisher addr }

-- What `main` sets up before the loop.
unfoldable pub set_up : NameServer
set_up =
    publisher_bind "tcp://*:5556"
      (publisher_create (responder_bind "tcp://*:5555" (responder_create initialize)))

-- `~name_server`: the sockets that it deletes, in order, before the context.
abbrev deleted : Option Endpoint → List Endpoint
deleted none = []
deleted (some e) = e ∷ []

unfoldable pub destroy : NameServer → List Endpoint
destroy s = deleted s.responder ++ deleted s.publisher

-- `initialize` of main.cpp: whether it returns. The handlers of the signals are empty.
unfoldable pub main_initialize : Answers → ℕ → Bool
main_initialize a mode = elim (daemon_init a mode).1 [
  | exits ↦ false
  | returns ↦ true
  | fails code ↦ false
]

-- DAEMON_MODE, and `main` up to the loop; `none` where the process exits.
abbrev pub daemon_mode : ℕ
daemon_mode = 1

unfoldable pub main_start : Answers → Option NameServer
main_start a = if main_initialize a daemon_mode then some set_up else none

module _ (serialize : List Name → Frame) where
  -- Sending the reply and the publication of a request.
  unfoldable pub answer : NameServer → Frame → Name → Option NameServer
  answer s msg name = elim s.responder [
    | none ↦ none
    | some r ↦ elim s.publisher [
      | none ↦ none
      | some p ↦
          some (record { responder = some (sock_send msg r); publisher = some (sock_send name p) })
    ]
  ]

  -- One turn of the loop; the responder has received `group`, or nothing.
  unfoldable pub loop_turn : Option Name → NameServer × Groups → Option (NameServer × Groups)
  loop_turn none (s, m) = some (s, m)
  loop_turn (some group) (s, m) = elim (serve serialize m group) [
    | none ↦ none
    | some (m', msg, name) ↦ elim (answer s msg name) [ none ↦ none | some s' ↦ some (s', m') ]
  ]

  -- The loop, over what each turn finds.
  unfoldable pub server_turns :
      List (Option Name) → NameServer × Groups → Option (NameServer × Groups)
  server_turns [] sm = some sm
  server_turns (polled ∷ rest) sm = elim (loop_turn polled sm) [
    | none ↦ none
    | some sm' ↦ server_turns rest sm'
  ]

  -- `server_loop`: the set to poll is made by following `m_responder`.
  unfoldable pub server_loop : List (Option Name) → NameServer → Option (NameServer × Groups)
  server_loop polls s = elim s.responder [ none ↦ none | some r ↦ server_turns polls (s, []) ]

-- The groups asked for.
abbrev pub asked : List (Option Name) → List Name
asked [] = []
asked (none ∷ polls) = asked polls
asked (some group ∷ polls) = group ∷ asked polls
