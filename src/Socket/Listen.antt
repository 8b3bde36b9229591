-- ===== src/Socket/Listen.antt =====
-- gateserver/socket_server.cpp: do_bind and do_listen, server_listen with them, and the calls of the
-- system by which `initialize` starts and `release` ends, with every error path. What the system
-- answers is a parameter. A descriptor is a number; `none` stands for -1.
pub mod Closed
mod Tests
use canna.Prelude.{
  ℕ, ◌+◌, ◌-◌, ◌^◌, Bool, true, false, List, [], ◌∷◌, ◌++◌, Option, none, some, if◌then◌else◌, ltb,
}
use canna.Core.{digits}
use canna.Socket.Types.{Socket, Server}
use canna.Socket.Api.{server_listen, initialize}

-- IPPROTO_TCP, IPPROTO_UDP or another number; SOCK_STREAM or SOCK_DGRAM.
pub data Protocol : Type 0 where
  tcp udp other : Protocol

pub data SockType : Type 0 where
  stream datagram : SockType

-- The calls of the system that these functions make.
pub data NetCall : Type 0 where
  get_addresses : (host port : List ℕ) (kind : SockType) → NetCall
  free_addresses : NetCall
  make_socket : (family socktype : ℕ) → Option ℕ → NetCall
  set_reuse bind_address : (fd : ℕ) → NetCall
  listen_on : (fd backlog : ℕ) → NetCall
  close_descriptor : (fd : ℕ) → NetCall
  new_epoll : Option ℕ → NetCall
  new_pipe : Option (ℕ × ℕ) → NetCall
  watch : (epoll fd : ℕ) → NetCall

-- What the system answers: the family and type of the first address, the descriptor of the socket,
-- and whether the calls on it succeed.
pub record Net : Type 0 where
  pub resolved : Option (ℕ × ℕ)
  pub made : Option ℕ
  pub reuses : Bool
  pub binds : Bool
  pub listens : Bool

-- "0.0.0.0"
abbrev pub any_host : List ℕ
any_host = b'0' ∷ b'.' ∷ b'0' ∷ b'.' ∷ b'0' ∷ b'.' ∷ b'0' ∷ []

-- The address asked for, for a null pointer or an empty text too.
abbrev pub host_or_any : Option (List ℕ) → List ℕ
host_or_any none = any_host
host_or_any (some []) = any_host
host_or_any (some (c ∷ host)) = c ∷ host

-- `sprintf(portstr, "%d", port)`, for the bit pattern of an `int`.
unfoldable pub port_text : ℕ → List ℕ
port_text port =
    if ltb port (2 ^ 31) then digits false 10 10 port else b'-' ∷ digits false 10 10 (2 ^ 32 - port)

-- The socket type of a protocol; `none` is the failed assertion.
abbrev pub socktype_of : Protocol → Option SockType
socktype_of tcp = some stream
socktype_of udp = some datagram
socktype_of other = none

-- From the socket on: what is returned, and the calls.
unfoldable pub bind_socket : Net → Option ℕ → Option ℕ × List NetCall
bind_socket net none = (none, free_addresses ∷ [])
bind_socket net (some fd) =
    if net.reuses
    then if net.binds
      then (some fd, set_reuse fd ∷ bind_address fd ∷ free_addresses ∷ [])
      else (none, set_reuse fd ∷ bind_address fd ∷ close_descriptor fd ∷ free_addresses ∷ [])
    else (none, set_reuse fd ∷ close_descriptor fd ∷ free_addresses ∷ [])

-- From what `getaddrinfo` answers on: the family is stored before the socket is made.
unfoldable pub bind_resolved : Net → Option (ℕ × ℕ) → Option ℕ × Option ℕ × List NetCall
bind_resolved net none = (none, none, [])
bind_resolved net (some (family, socktype)) =
    let (fd, calls) = bind_socket net net.made in
    (fd, some family, make_socket family socktype net.made ∷ calls)

-- `do_bind`: the descriptor, the family if it is stored, and the calls in their order.
unfoldable pub do_bind :
    Net → Option (List ℕ) → ℕ → Protocol → Option (Option ℕ × Option ℕ × List NetCall)
do_bind net host port protocol = elim (socktype_of protocol) [
  | none ↦ none
  | some kind ↦
      let (fd, family, calls) = bind_resolved net net.resolved in
      some (fd, family, get_addresses (host_or_any host) (port_text port) kind ∷ calls)
]

unfoldable pub listen_bound : Net → ℕ → Option ℕ → Option ℕ × List NetCall
listen_bound net backlog none = (none, [])
listen_bound net backlog (some fd) =
    if net.listens
    then (some fd, listen_on fd backlog ∷ [])
    else (none, listen_on fd backlog ∷ close_descriptor fd ∷ [])

-- `do_listen`
unfoldable pub do_listen : Net → Option (List ℕ) → ℕ → ℕ → Option (Option ℕ × List NetCall)
do_listen net host port backlog = elim (do_bind net host port tcp) [
  | none ↦ none
  | some (fd, family, calls) ↦
      let (listened, more) = listen_bound net backlog fd in some (listened, calls ++ more)
]

-- `server_listen` from the address on: the server, the id, and the calls of `do_listen`.
unfoldable pub server_listen_at :
    Net → Option (List ℕ) → ℕ → ℕ → ℕ → Server → Option (Server × Option ℕ × List NetCall)
server_listen_at net host port backlog opaque s = elim (do_listen net host port backlog) [
  | none ↦ none
  | some (fd, calls) ↦ let (t, id) = server_listen fd opaque s in some (t, id, calls)
]

-- What the system answers to `initialize`.
pub record Setup : Type 0 where
  pub epoll : Option ℕ
  pub pipe : Option (ℕ × ℕ)
  pub watches : Bool

-- FD_SETSIZE
abbrev pub fd_setsize : ℕ
fd_setsize = 1024

-- How `initialize` ends: it returns early, the assertion on the receiving end fails, or the server
-- is set up.
pub data Begun : Type 0 where
  gives_up aborts : Begun
  begins : Server → Begun

-- From the pipe on.
unfoldable pub initialize_pipe : Setup → ℕ → Option (ℕ × ℕ) → (ℕ → Socket) → Begun × List NetCall
initialize_pipe setup epoll none memory = (gives_up, new_pipe none ∷ close_descriptor epoll ∷ [])
initialize_pipe setup epoll (some (r, w)) memory =
    if setup.watches
    then (
      if ltb r fd_setsize then begins (initialize memory) else aborts,
      new_pipe (some (r, w)) ∷ watch epoll r ∷ [],
    )
    else (
      gives_up,
      new_pipe (some (r, w))
          ∷ watch epoll r
          ∷ close_descriptor r
          ∷ close_descriptor w
          ∷ close_descriptor epoll
          ∷ [],
    )

unfoldable pub initialize_epoll : Setup → Option ℕ → (ℕ → Socket) → Begun × List NetCall
initialize_epoll setup none memory = (gives_up, new_epoll none ∷ [])
initialize_epoll setup (some epoll) memory =
    let (server, calls) = initialize_pipe setup epoll setup.pipe memory in
    (server, new_epoll (some epoll) ∷ calls)

-- `initialize` with its error paths.
unfoldable pub try_initialize : Setup → (ℕ → Socket) → Begun × List NetCall
try_initialize setup memory = initialize_epoll setup setup.epoll memory

-- The end of `release`: the sending end, the receiving end, and epoll.
abbrev pub release_calls : ℕ → ℕ × ℕ → List NetCall
release_calls epoll (r, w) = close_descriptor w ∷ close_descriptor r ∷ close_descriptor epoll ∷ []
