-- ===== src/Socket/Types.antt =====
-- gateserver/socket_define.h and socket_server.h: the constants and the data of the socket server,
-- and the answers of the operating system, which are parameters of the model.
use Prim.Native.String.{String}
use canna.Prelude.{ℕ, ◌-◌, ◌%◌, ◌^◌, Bool, List, ◌∷◌, Option, if◌then◌else◌, ◌==◌}

-- SOCKET_TYPE_*
pub data SocketType : Type 0 where
  invalid reserve plisten listen connecting connected halfclose paccept bound : SocketType

abbrev pub type_code : SocketType → ℕ
type_code invalid = 0
type_code reserve = 1
type_code plisten = 2
type_code listen = 3
type_code connecting = 4
type_code connected = 5
type_code halfclose = 6
type_code paccept = 7
type_code bound = 8

abbrev pub is : SocketType → SocketType → Bool
is t u = type_code t == type_code u

-- SOCKET_DATA, SOCKET_CLOSE, ...: what `poll` returns; -1 is `none` of `Option Report`.
pub data Report : Type 0 where
  received closed opened accepted failed exited udp : Report

abbrev pub protocol_tcp : ℕ
protocol_tcp = 0

abbrev pub min_read_buffer : ℕ
min_read_buffer = 64

-- MAX_SOCKET
abbrev pub max_socket : ℕ
max_socket = 2 ^ 16

abbrev pub max_event : ℕ
max_event = 64

-- HASH_ID
abbrev pub hash_id : ℕ → ℕ
hash_id id = id % 2 ^ 32 % max_socket

-- The bit pattern of the `int` -1.
abbrev pub minus_one : ℕ
minus_one = 2 ^ 32 - 1

-- `struct write_buffer`: the block, the offset of `ptr` in it, and the bytes that `sz` counts.
pub record WriteBuffer : Type 0 where
  pub block : List ℕ
  pub ptr : ℕ
  pub sz : ℕ

-- `struct socket`. A `wb_list` is the chain from its head; nothing reads its tail pointer.
pub record Socket : Type 0 where
  pub opaque : ℕ
  pub high : List WriteBuffer
  pub low : List WriteBuffer
  pub wb_size : ℕ
  pub fd : ℕ
  pub id : ℕ
  pub protocol : ℕ
  pub type : SocketType
  pub size : ℕ

-- What `socket_message::data` points to.
pub data Payload : Type 0 where
  null : Payload
  text : String → Payload
  block : List ℕ → Payload

-- `struct socket_message`
pub record Message : Type 0 where
  pub id : ℕ
  pub opaque : ℕ
  pub ud : ℕ
  pub content : Payload

-- The requests on the control pipe, by their first byte: S B L K O X D T; P A C U and any other
-- byte are `ignored`.
pub data Request : Type 0 where
  start : (id opaque : ℕ) → Request
  bind : (id fd opaque : ℕ) → Request
  listening : (id fd opaque : ℕ) → Request
  close : (id opaque : ℕ) → Request
  connect : (id port opaque : ℕ) (host : List ℕ) → Request
  exit : Request
  send : (id : ℕ) (buffer : List ℕ) → Request
  setopt : (id what value : ℕ) → Request
  ignored : ℕ → Request

-- `struct event`: the slot that `s` points to, `none` for a null pointer.
pub record Event : Type 0 where
  pub slot : Option ℕ
  pub read : Bool
  pub write : Bool

-- The system calls that a handler makes, the latest first.
pub data SysCall : Type 0 where
  epoll_add : (fd slot : ℕ) → SysCall
  epoll_del : (fd : ℕ) → SysCall
  epoll_write : (fd slot : ℕ) (enable : Bool) → SysCall
  close_fd : (fd : ℕ) → SysCall
  set_keepalive set_nonblocking : (fd : ℕ) → SysCall
  set_option : (fd what value : ℕ) → SysCall
  wire : (fd : ℕ) (bytes : List ℕ) → SysCall

-- `class socket_server`, with the message that the current `poll` fills, the requests in the
-- control pipe and the system calls made so far.
pub record Server : Type 0 where
  pub slots : ℕ → Socket
  pub alloc_id : ℕ
  pub checkctrl : Bool
  pub pending : List Event
  pub result : Message
  pub pipe : List Request
  pub calls : List SysCall

-- The result of `write` and `read` on a socket.
pub data WriteResult : Type 0 where
  sent : ℕ → WriteResult
  write_eintr write_eagain write_error : WriteResult

pub data ReadResult : Type 0 where
  got : List ℕ → ReadResult
  read_eintr read_eagain read_error : ReadResult

-- One address of `getaddrinfo`: the result of `socket`, of `connect`, and the printed address.
pub data Connected : Type 0 where
  at_once in_progress refused : Connected

pub record Attempt : Type 0 where
  pub sock : Option ℕ
  pub outcome : Connected
  pub printed : Payload

-- The answers of the operating system during one round of `poll`; `reads n` is what `read` gives
-- for a block of `n` bytes.
pub record Sys : Type 0 where
  pub add_fails : Bool
  pub accepts : Option ℕ
  pub accepted_from : Payload
  pub so_error : Bool
  pub peername_fails : Bool
  pub peer : Payload
  pub resolves : Option (List Attempt)
  pub write_now : WriteResult
  pub writes : List WriteResult
  pub writes_low : List WriteResult
  pub reads : ℕ → ReadResult

abbrev pub update : (ℕ → Socket) → ℕ → Socket → ℕ → Socket
update slots k sock j = if j == k then sock else slots j

-- Write the slot `k`, and log a system call.
abbrev pub put : Server → ℕ → Socket → Server
put s k sock = record s { slots = update s.slots k sock }

abbrev pub call : SysCall → Server → Server
call c s = record s { calls = c ∷ s.calls }

abbrev pub set_type : Server → ℕ → SocketType → Server
set_type s k t = put s k (record (s.slots k) { type = t })

abbrev pub tell : Server → ℕ → ℕ → ℕ → Payload → Server
tell s id opaque ud content = record s {
  result = record { id = id; opaque = opaque; ud = ud; content = content };
}
