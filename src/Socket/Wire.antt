-- ===== src/Socket/Wire.antt =====
-- gateserver/socket_server.cpp: the bytes of requests on the control pipe (send_request,
-- block_readpipe, the start of ctrl_cmd, and open_request). The layout is that of x86-64, with
-- little-endian numbers of 32 and 64 bits.
pub mod Trip
pub mod Errors
mod Tests
use canna.Prelude.{
  ℕ, zero, suc, ◌+◌, ◌*◌, ◌/◌, ◌%◌, ◌^◌, Bool, true, false, List, [], ◌∷◌, ◌++◌, Option, none, some,
  if◌then◌else◌, ltb, ◌==◌, length, take, drop,
}

-- The bytes of a number, the lowest first, and back.
abbrev pub le_bytes : ℕ → ℕ → List ℕ
le_bytes zero x = []
le_bytes (suc n) x = x % 256 ∷ le_bytes n (x / 256)

abbrev pub of_le : List ℕ → ℕ
of_le [] = 0
of_le (b ∷ bytes) = b + 256 * of_le bytes

-- What `send_request` writes: the type and the length, a byte each, and so many bytes of the union.
unfoldable pub package_bytes : ℕ → List ℕ → List ℕ
package_bytes type body = type % 256 ∷ length body % 256 ∷ body

-- The loop of `send_request` over what each `write` answers, `none` for an error; `none` of the
-- whole while it still tries, or where the assertion fails.
unfoldable pub send_request : List (Option ℕ) → ℕ → List ℕ → List ℕ → Option (List ℕ)
send_request [] type body pipe = none
send_request (none ∷ answers) type body pipe = send_request answers type body pipe
send_request (some n ∷ answers) type body pipe =
    if n == length body + 2 then some (pipe ++ package_bytes type body) else none

-- `block_readpipe`: so many bytes, and what is left; `none` where there are not so many, so that
-- it waits or its assertion fails.
unfoldable pub block_read_pipe : ℕ → List ℕ → Option (List ℕ × List ℕ)
block_read_pipe zero pipe = some ([], pipe)
block_read_pipe (suc n) [] = none
block_read_pipe (suc n) (b ∷ pipe) = elim (block_read_pipe n pipe) [
  | none ↦ none
  | some (bytes, left) ↦ some (b ∷ bytes, left)
]

-- The start of `ctrl_cmd`: the type and the body of the next request, and what is left.
unfoldable pub read_request : List ℕ → Option (ℕ × List ℕ × List ℕ)
read_request (type ∷ len ∷ pipe) = elim (block_read_pipe len pipe) [
  | none ↦ none
  | some (body, left) ↦ some (type, body, left)
]
read_request _ = none

-- So many requests, and what is left.
unfoldable pub read_requests : ℕ → List ℕ → Option (List (ℕ × List ℕ) × List ℕ)
read_requests zero pipe = some ([], pipe)
read_requests (suc n) pipe = elim (read_request pipe) [
  | none ↦ none
  | some (type, body, left) ↦ elim (read_requests n left) [
    | none ↦ none
    | some (later, rest) ↦ some ((type, body) ∷ later, rest)
  ]
]

-- `open_request`: the length of an address that fits.
unfoldable pub open_request : List ℕ → Option ℕ
open_request addr = if ltb 256 (length addr + 24) then none else some (length addr)

-- The bytes of `struct request_open` that `server_connect` writes: `sizeof` is 24, of which `host`
-- is one byte and `padding`, which nothing sets, is seven.
unfoldable pub open_body : (id port opaque : ℕ) → (addr padding : List ℕ) → List ℕ
open_body id port opaque addr padding =
    le_bytes 4 id ++ le_bytes 4 port ++ le_bytes 8 opaque ++ addr ++ 0 ∷ padding

-- The fields of a request_open at the start of the reader's buffer.
abbrev pub host_of : List ℕ → List ℕ
host_of [] = []
host_of (b ∷ bytes) = let rest = host_of bytes in elim (b == 0) [ true ↦ [] | false ↦ b ∷ rest ]

unfoldable pub open_fields : List ℕ → ℕ × ℕ × ℕ × List ℕ
open_fields buffer = (
  of_le (take 4 buffer),
  of_le (take 4 (drop 4 buffer)),
  of_le (take 8 (drop 8 buffer)),
  host_of (drop 16 buffer),
)
