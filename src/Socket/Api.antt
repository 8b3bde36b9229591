-- ===== src/Socket/Api.antt =====
-- gateserver/socket_server.cpp: initialize and release, and the calls that clients make
-- (server_listen, server_bind, server_connect, server_start, server_close, server_send,
-- server_exit), which reserve a slot and put a request into the control pipe.
use canna.Prelude.{
  ℕ, zero, suc, ◌+◌, true, not, List, [], ◌∷◌, ◌++◌, Option, none, some, if◌then◌else◌, ltb, ◌==◌,
  ◌||◌, length,
}
use canna.Socket.Types.{
  invalid, reserve, is, hash_id, max_socket, Socket, Server, Request, start, bind, listening, close,
  connect, exit, send, close_fd, call, null,
}
use canna.Socket.Slots.{reserve_id, force_close}
use canna.Socket.Send.{◌>>=◌}

-- `send_request`, of a request of fewer than 256 bytes: its length fits the byte for it, and the
-- pipe keeps the order of the requests, which are read as they were sent. Socket/Wire has the bytes.
abbrev pub send_request : Request → Server → Server
send_request r s = record s { pipe = s.pipe ++ r ∷ [] }

-- The slots after the loop of `initialize`; the other fields keep what the memory held.
abbrev pub cleared : (ℕ → Socket) → ℕ → Socket
cleared memory k =
    if ltb k max_socket then record (memory k) { type = invalid; high = []; low = [] } else memory k

-- `initialize`, where epoll and the pipe are made without an error.
unfoldable pub initialize : (ℕ → Socket) → Server
initialize memory = record {
  slots = cleared memory;
  alloc_id = 0;
  checkctrl = true;
  pending = [];
  result = record { id = 0; opaque = 0; ud = 0; content = null };
  pipe = [];
  calls = [];
}

-- `force_close` into a message that nobody reads.
abbrev pub discard : Server → ℕ → Option Server
discard s k = force_close s k >>= λ t. some (record t { result = s.result })

-- The loop of `release` with the slots left, from the slot `k` on.
unfoldable pub release_from : ℕ → ℕ → Server → Option Server
release_from zero k s = some s
release_from (suc n) k s =
    (if is (s.slots k).type reserve then some s else discard s k) >>= λ t. release_from n (k + 1) t

-- `release`, up to the closing of the control pipe and of epoll.
unfoldable pub release : Server → Option Server
release s = release_from max_socket 0 s

-- A slot is reserved and the request made from its id is sent.
abbrev pub send_reserved : (ℕ → Request) → (Server → Server) → Server → Option ℕ → Server × Option ℕ
send_reserved request give_up t none = (give_up t, none)
send_reserved request give_up t (some id) = (send_request (request id) t, some id)

abbrev pub reserve_and_send : (ℕ → Request) → (Server → Server) → Server → Server × Option ℕ
reserve_and_send request give_up s = send_reserved request give_up (reserve_id s).0 (reserve_id s).1

-- `server_listen`; `listened` is what `do_listen` returns, `none` for -1.
unfoldable pub server_listen : Option ℕ → ℕ → Server → Server × Option ℕ
server_listen none opaque s = (s, none)
server_listen (some fd) opaque s =
    reserve_and_send (λ id. listening id fd opaque) (call (close_fd fd)) s

unfoldable pub server_bind : ℕ → ℕ → Server → Server × Option ℕ
server_bind opaque fd s = reserve_and_send (λ id. bind id fd opaque) (λ t. t) s

-- `sizeof(request_open)` on a 64-bit machine.
abbrev pub open_size : ℕ
open_size = 24

-- `server_connect` with `open_request`, which refuses an address too long for the request. `none` is
-- an open request of 256 bytes, whose length is sent as 0: the pipe then holds no list of requests,
-- and Socket/Wire has what is read from it.
unfoldable pub server_connect : ℕ → List ℕ → ℕ → Server → Option (Server × Option ℕ)
server_connect opaque addr port s =
    if ltb 256 (length addr + open_size)
    then some (s, none)
    else if length addr + open_size == 256
    then none
    else some (reserve_and_send (λ id. connect id port opaque addr) (λ t. t) s)

unfoldable pub server_start : ℕ → ℕ → Server → Server
server_start opaque id s = send_request (start id opaque) s

unfoldable pub server_close : ℕ → ℕ → Server → Server
server_close opaque id s = send_request (close id opaque) s

unfoldable pub server_exit : Server → Server
server_exit s = send_request exit s

-- `server_send`; the result is `wb_size`, `none` for -1.
unfoldable pub server_send : ℕ → List ℕ → Server → Server × Option ℕ
server_send id buffer s =
    let k : ℕ = hash_id id in
    if not (id == (s.slots k).id) || is (s.slots k).type invalid
    then (s, none)
    else (send_request (send id buffer) s, some (s.slots k).wb_size)
