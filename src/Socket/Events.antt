-- ===== src/Socket/Events.antt =====
-- gateserver/socket_server.cpp: what epoll reports (report_accept, report_connect,
-- forward_message_tcp, clear_closed_event).
use canna.Prelude.{
  ℕ, ◌*◌, ◌/◌, ◌%◌, ◌^◌, Bool, true, false, Option, none, some, if◌then◌else◌, ltb, ◌==◌, ◌&&◌,
  length, map,
}
use canna.Socket.Types.{
  invalid, connected, halfclose, paccept, is, hash_id, protocol_tcp, min_read_buffer, Report,
  received, closed, opened, failed, Socket, Server, Sys, Event, epoll_write, close_fd,
  set_keepalive, set_nonblocking, null, block, got, read_eintr, read_eagain, read_error, put,
  set_type, call, tell,
}
use canna.Socket.Slots.{reserve_id, new_socket, force_close}
use canna.Socket.Send.{◌>>=◌, send_buffer_empty}

-- `report_accept` from the reservation on: `s` is the listening socket and `fd` the client's.
unfoldable pub accept_reserved : Sys → Socket → ℕ → Server → Option ℕ → Option (Server × Bool)
accept_reserved sys s fd t none = some (call (close_fd fd) t, false)
accept_reserved sys s fd t (some id) = do
  (u, made) ←
      new_socket (call (set_nonblocking fd) (call (set_keepalive fd) t)) id fd protocol_tcp s.opaque
        false false
  if made
      then some (tell (set_type u (hash_id id) paccept) s.id s.opaque id sys.accepted_from, true)
      else some (call (close_fd fd) u, false)

-- `report_accept` on the listening socket in the slot `k`: whether a client came in.
unfoldable pub report_accept : Sys → Server → ℕ → Option (Server × Bool)
report_accept sys s k = elim sys.accepts [
  | none ↦ some (s, false)
  | some fd ↦ accept_reserved sys (s.slots k) fd (reserve_id s).0 (reserve_id s).1
]

-- `report_connect`, which reads the peer's address where `getpeername` fails.
unfoldable pub report_connect : Sys → Server → ℕ → Option (Server × Option Report)
report_connect sys s k =
    if sys.so_error
    then (force_close s k >>= λ t. some (t, some failed))
    else (let t = set_type s k connected in
        let u = if send_buffer_empty s k then call (epoll_write (s.slots k).fd k false) t else t in
        some (
          tell u (s.slots k).id (s.slots k).opaque 0
              (if sys.peername_fails then sys.peer else null),
          some opened,
        ))

-- The size of the next read, by how much of the block the last one filled.
abbrev pub resize : ℕ → ℕ → ℕ
resize sz n =
    if n == sz
    then sz * 2 % 2 ^ 32
    else if ltb min_read_buffer sz && ltb (n * 2) sz
    then sz / 2
    else sz

-- `forward_message_tcp`
unfoldable pub forward_message_tcp : Sys → Server → ℕ → Option (Server × Option Report)
forward_message_tcp sys s k = elim (sys.reads (s.slots k).size) [
  | read_eintr ↦ some (s, none)
  | read_eagain ↦ some (s, none)
  | read_error ↦ force_close s k >>= λ t. some (t, none)
  | got bytes ↦
      if length bytes == 0
      then some (s, none)
      else if is (s.slots k).type halfclose
      then some (s, none)
      else some (
        tell (put s k (record (s.slots k) { size = resize (s.slots k).size (length bytes) }))
            (s.slots k).id (s.slots k).opaque (length bytes) (block bytes),
        some received,
      )
]

-- An event of the closed socket `id` loses its pointer.
abbrev pub clear_event : Server → ℕ → Event → Event
clear_event s id e = elim e.slot [
  | none ↦ e
  | some k ↦
      if is (s.slots k).type invalid && (s.slots k).id == id then record e { slot = none } else e
]

-- `clear_closed_event`, after SOCKET_CLOSE or SOCKET_ERROR.
unfoldable pub clear_closed_event : Server → Report → Server
clear_closed_event s closed = record s { pending = map (clear_event s s.result.id) s.pending }
clear_closed_event s failed = record s { pending = map (clear_event s s.result.id) s.pending }
clear_closed_event s r = s
