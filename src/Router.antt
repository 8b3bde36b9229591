-- ===== src/Router.antt =====
-- routers/router_server.h, router_server.cpp and main.cpp: a router asks the name server for a name in the
-- group "cluster" and reads the names of the group from the reply.
pub mod Named
mod Tests
use Prim.Native.String.{String}
use canna.Prelude.{ℕ, List, [], ◌∷◌, ◌++◌, Option, none, some}
use canna.Zmq.{
  Frame, Kind, zmq_req, zmq_sub, Call, binds, connects, identifies, subscribes, sends, sends_more,
  Endpoint, log,
}
use canna.Names.{Name}

-- `class router_server`
pub record RouterServer : Type 0 where
  pub clusterfe : Option Endpoint
  pub clusterbe : Option Endpoint
  pub subscribe : Option Endpoint
  pub requester : Option Endpoint

unfoldable pub initialize : RouterServer
initialize = record { clusterfe = none; clusterbe = none; subscribe = none; requester = none }

unfoldable pub sock_create : Kind → Option Endpoint
sock_create kind = some (record { kind = kind; inbox = []; calls = [] })

unfoldable pub sock_bind : Option Endpoint → String → Option Endpoint
sock_bind none addr = none
sock_bind (some e) addr = some (log (binds addr) e)

unfoldable pub sock_identity : Option Endpoint → String → Option Endpoint
sock_identity none addr = none
sock_identity (some e) addr = some (log (identifies addr) e)

unfoldable pub sock_setfilter : Option Endpoint → String → Option Endpoint
sock_setfilter none filter = none
sock_setfilter (some e) filter = some (log (subscribes filter) e)

unfoldable pub sock_connect : Option Endpoint → String → Option Endpoint
sock_connect none addr = none
sock_connect (some e) addr = some (log (connects addr) e)

unfoldable pub sock_recv : Endpoint → Option (Endpoint × Frame)
sock_recv e = elim e.inbox [ [] ↦ none | frame ∷ rest ↦ some (record e { inbox = rest }, frame) ]

unfoldable pub sock_send : Frame → Endpoint → Endpoint
sock_send frame e = log (sends frame) e

unfoldable pub sock_sendmore : Frame → Endpoint → Endpoint
sock_sendmore frame e = log (sends_more frame) e

unfoldable pub router_init : RouterServer → RouterServer
router_init s = record s {
  requester = sock_connect (sock_create zmq_req) "tcp://localhost:5555";
  subscribe = sock_setfilter (sock_connect (sock_create zmq_sub) "tcp://localhost:5556") "";
}

-- `~router_server`: the sockets that it deletes, in order, before the context.
abbrev deleted : Option Endpoint → List Endpoint
deleted none = []
deleted (some e) = e ∷ []

unfoldable pub destroy : RouterServer → List Endpoint
destroy s =
    deleted s.clusterfe ++ (deleted s.clusterbe ++ (deleted s.subscribe ++ deleted s.requester))

-- "cluster"
abbrev pub cluster : Name
cluster = b'c' ∷ b'l' ∷ b'u' ∷ b's' ∷ b't' ∷ b'e' ∷ b'r' ∷ []

-- The names that routers/main.cpp prints, a line each.
unfoldable pub print_names : List Name → List ℕ
print_names [] = []
print_names (name ∷ names) = name ++ 10 ∷ print_names names

-- `router_name`, where `exchange` is what the name server replies to a request, and `parse` is the
-- parser of protobuf, which gives the names of a `NameInfo`. `none` is a null pointer followed, or a
-- request that is never answered.
module _ (exchange : Frame → Option Frame) (parse : Frame → List Name) where
  unfoldable pub router_name : RouterServer → Option (RouterServer × List Name)
  router_name s = elim s.requester [
    | none ↦ none
    | some e ↦ elim (exchange cluster) [
      | none ↦ none
      | some res ↦ some (record s { requester = some (sock_send cluster e) }, parse res)
    ]
  ]

  -- `main` of routers/main.cpp, which then sleeps for ever.
  unfoldable pub main : Option (List ℕ)
  main = elim (router_name (router_init initialize)) [
    | none ↦ none
    | some (s, names) ↦ some (print_names names)
  ]
