-- ===== src/Socket/Commands.antt =====
-- gateserver/socket_server.cpp: the handlers of the requests that arrive on the control pipe
-- (start_socket, bind_socket, listen_socket, close_socket, open_socket, send_socket, setopt_socket)
-- and ctrl_cmd. `none` is a failed assertion or a null pointer dereferenced.
use canna.Prelude.{
  ℕ, Bool, true, false, not, List, [], ◌∷◌, Option, none, some, if◌then◌else◌, ◌==◌, ◌||◌, ◌&&◌,
  length, take,
}
use canna.Socket.Types.{
  invalid, plisten, listen, connecting, connected, halfclose, paccept, bound, is, hash_id,
  protocol_tcp, Report, closed, opened, failed, exited, Server, Sys, epoll_add, epoll_write,
  close_fd, set_keepalive, set_nonblocking, set_option, wire, null, text, Payload, Request, start,
  bind, listening, close, connect, exit, send, setopt, ignored, Attempt, at_once, in_progress,
  refused, WriteResult, sent, write_eintr, write_eagain, write_error, put, set_type, call, tell,
}
use canna.Socket.Slots.{new_socket, force_close}
use canna.Socket.Send.{◌>>=◌, send_buffer, send_buffer_empty}

abbrev pub Handled : Type 0
Handled = Option (Server × Option Report)

-- `s->type == SOCKET_TYPE_INVALID || s->id != id`: the id names no live socket.
abbrev pub is_stale : Server → ℕ → Bool
is_stale s id = is (s.slots (hash_id id)).type invalid || not ((s.slots (hash_id id)).id == id)

abbrev with_content : Server → Payload → Server
with_content s p = record s { result = record (s.result) { content = p } }

unfoldable pub start_socket : Sys → Server → ℕ → ℕ → Handled
start_socket sys s id opaque =
    let k : ℕ = hash_id id in
    let t = tell s id opaque 0 null in
    if is_stale s id
    then some (t, some failed)
    else if is (s.slots k).type paccept || is (s.slots k).type plisten
    then (let u = call (epoll_add (s.slots k).fd k) t in
        if sys.add_fails
        then some (set_type u k invalid, some failed)
        else some (
          put (with_content u (text "start")) k (record (s.slots k) {
            type = if is (s.slots k).type paccept then connected else listen;
            opaque = opaque;
          }),
          some opened,
        ))
    else if is (s.slots k).type connected
    then some (
      put (with_content t (text "transfer")) k (record (s.slots k) { opaque = opaque }),
      some opened,
    )
    else some (t, none)

unfoldable pub bind_socket : Sys → Server → ℕ → ℕ → ℕ → Handled
bind_socket sys s id fd opaque = do
  (u, made) ←
      new_socket (tell s id opaque 0 s.result.content) id fd protocol_tcp opaque true sys.add_fails
  if made
      then some (
        set_type (with_content (call (set_nonblocking fd) u) (text "binding")) (hash_id id) bound,
        some opened,
      )
      else some (with_content u null, some failed)

unfoldable pub listen_socket : Server → ℕ → ℕ → ℕ → Handled
listen_socket s id fd opaque = do
  (u, made) ← new_socket s id fd protocol_tcp opaque false false
  if made
      then some (set_type u (hash_id id) plisten, none)
      else some (
        set_type (tell (call (close_fd fd) u) id opaque 0 null) (hash_id id) invalid,
        some failed,
      )

-- Behind the flush of `close_socket`: the socket is closed if nothing is left to send.
unfoldable pub close_flushed : Server → ℕ → ℕ → Handled
close_flushed s id opaque =
    if send_buffer_empty s (hash_id id)
    then (force_close s (hash_id id) >>= λ t.
        some (record t { result = record (t.result) { id = id; opaque = opaque } }, some closed))
    else some (set_type s (hash_id id) halfclose, none)

-- What `send_buffer` returned: -1 ends the request.
unfoldable pub after_flush : Server → Option Report → ℕ → ℕ → Handled
after_flush s none id opaque = some (s, none)
after_flush s (some r) id opaque = close_flushed s id opaque

unfoldable pub close_socket : Sys → Server → ℕ → ℕ → Handled
close_socket sys s id opaque =
    if is_stale s id
    then some (tell s id opaque 0 null, some closed)
    else if send_buffer_empty s (hash_id id)
    then close_flushed s id opaque
    else (send_buffer sys.writes sys.writes_low s (hash_id id) >>= λ (t, r).
        after_flush t r id opaque)

-- The loop of `open_socket` over the addresses. It tests `ai_list` and not `ai_ptr`, so it runs
-- off the end of the list. The result is the descriptor, the outcome and the printed address.
unfoldable pub try_connect : List Attempt → Server → Option (Server × ℕ × Bool × Payload)
try_connect [] s = none
try_connect (a ∷ rest) s = elim a.sock [
  | none ↦ try_connect rest s
  | some fd ↦ elim a.outcome [
    | at_once ↦ some (call (set_nonblocking fd) (call (set_keepalive fd) s), fd, true, a.printed)
    | in_progress ↦
        some (call (set_nonblocking fd) (call (set_keepalive fd) s), fd, false, a.printed)
    | refused ↦
        try_connect rest
          (call (close_fd fd) (call (set_nonblocking fd) (call (set_keepalive fd) s)))
  ]
]

-- `open_socket` behind its loop. It does not test the pointer that `new_socket` returns.
unfoldable pub open_connected : Sys → Server → ℕ → ℕ → ℕ → Bool → Payload → Handled
open_connected sys s id opaque fd done printed = do
  (u, made) ← new_socket s id fd protocol_tcp opaque true sys.add_fails
  if made
      then (if done
          then some (with_content (set_type u (hash_id id) connected) printed, some opened)
          else some
              (call (epoll_write fd (hash_id id) true) (set_type u (hash_id id) connecting), none))
      else none

-- Label `_failed`: the reserved slot is given up.
abbrev pub open_failed : Server → ℕ → Handled
open_failed s id = some (set_type s (hash_id id) invalid, some failed)

-- `open_socket` on what `getaddrinfo` found.
unfoldable pub open_resolved : Option (List Attempt) → Sys → Server → ℕ → ℕ → Handled
open_resolved none sys s id opaque = open_failed s id
open_resolved (some []) sys s id opaque = open_failed s id
open_resolved (some (a ∷ rest)) sys s id opaque = do
  (u, fd, done, printed) ← try_connect (a ∷ rest) s
  open_connected sys u id opaque fd done printed

unfoldable pub open_socket : Sys → Server → ℕ → ℕ → Handled
open_socket sys s id opaque = open_resolved sys.resolves sys (tell s id opaque 0 null) id opaque

-- `n`, the number of bytes that the first `write` of `send_socket` takes; `none` is a lost
-- connection. The bytes not taken are not kept.
abbrev pub taken : WriteResult → Option ℕ
taken (sent n) = some n
taken write_eintr = some 0
taken write_eagain = some 0
taken write_error = none

unfoldable pub send_now : Sys → Server → ℕ → List ℕ → Handled
send_now sys s k buffer = elim (taken sys.write_now) [
  | none ↦ force_close s k >>= λ t. some (t, some closed)
  | some n ↦
      if n == length buffer
      then some (call (wire (s.slots k).fd buffer) s, none)
      else some (
        call (epoll_write (s.slots k).fd k true) (call (wire (s.slots k).fd (take n buffer)) s),
        none,
      )
]

unfoldable pub send_socket : Sys → Server → ℕ → List ℕ → Handled
unfolding send_now
send_socket sys s id buffer =
    let k : ℕ = hash_id id in
    let t = (s.slots k).type in
    if is_stale s id || is t halfclose || is t paccept
    then some (s, none)
    else if is t plisten || is t listen
    then none
    else if send_buffer_empty s k && is t connected && (s.slots k).protocol == protocol_tcp
    then send_now sys s k buffer
    else some (s, none)

unfoldable pub setopt_socket : Server → ℕ → ℕ → ℕ → Server
setopt_socket s id what value =
    if is_stale s id then s else call (set_option (s.slots (hash_id id)).fd what value) s

-- `ctrl_cmd` on the request that was read from the pipe.
unfoldable pub ctrl_cmd : Sys → Server → Request → Handled
ctrl_cmd sys s (start id opaque) = start_socket sys s id opaque
ctrl_cmd sys s (bind id fd opaque) = bind_socket sys s id fd opaque
ctrl_cmd sys s (listening id fd opaque) = listen_socket s id fd opaque
ctrl_cmd sys s (close id opaque) = close_socket sys s id opaque
ctrl_cmd sys s (connect id port opaque host) = open_socket sys s id opaque
ctrl_cmd sys s exit = some (tell s 0 0 0 null, some exited)
ctrl_cmd sys s (send id buffer) = send_socket sys s id buffer
ctrl_cmd sys s (setopt id what value) = some (setopt_socket s id what value, none)
ctrl_cmd sys s (ignored byte) = some (s, none)
