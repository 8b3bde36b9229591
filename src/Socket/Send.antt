-- ===== src/Socket/Send.antt =====
-- gateserver/socket_server.cpp: the write buffers (send_list_tcp, send_list, list_uncomplete,
-- raise_uncomplete, send_buffer). `none` is a failed assertion or a read through a null pointer.
use canna.Prelude.{
  ℕ, ◌+◌, ◌-◌, ◌%◌, ◌^◌, Bool, true, false, not, List, [], ◌∷◌, ◌++◌, Option, none, some,
  if◌then◌else◌, ◌==◌, take, drop, ◌&&◌,
}
use canna.Socket.Types.{
  is, type_code, halfclose, protocol_tcp, Report, received, closed, WriteBuffer, Socket, Server,
  epoll_write, wire, WriteResult, sent, write_eintr, write_eagain, write_error, put, call,
}
use canna.Socket.Slots.{force_close}

infixl 5 ◌>>=◌
abbrev pub ◌>>=◌ {ℓ κ} : {A : Type ℓ} {B : Type κ} → Option A → (A → Option B) → Option B
none >>= f = none
some a >>= f = f a

-- A postcondition of a run that may abort: nothing is claimed where it does.
abbrev pub After {ℓ κ} : {A : Type ℓ} → (A → Type κ) → Option A → Type κ
After P none = Unit
After P (some a) = P a

pub After-bind {ℓ κ λ' μ} :
    {A : Type ℓ} {B : Type κ} (P : A → Type λ') (Q : B → Type μ) (m : Option A) (f : A → Option B)
    → After P m
    → ((a : A) → P a → After Q (f a))
    → After Q (m >>= f)
After-bind P Q none f h keep = tt
After-bind P Q (some a) f h keep = keep a h

-- The bytes of a buffer that are still to be sent.
abbrev pub unsent : WriteBuffer → List ℕ
unsent w = take w.sz (drop w.ptr w.block)

-- What the loop of `send_list_tcp` leaves: the rest of the chain, the bytes written and their
-- number, and whether the connection is lost.
pub record Drained : Type 0 where
  pub left : List WriteBuffer
  pub out : List ℕ
  pub total : ℕ
  pub lost : Bool

abbrev stop : List WriteBuffer → Drained
stop ws = record { left = ws; out = []; total = 0; lost = false }

abbrev count_in : List ℕ → ℕ → Drained → Drained
count_in bytes n d = record d { out = bytes ++ d.out; total = n + d.total }

-- The two loops of `send_list_tcp`, over the answers of `write`. Once the answers run out the
-- socket stays unwritable (EAGAIN).
unfoldable pub drain : List WriteResult → List WriteBuffer → Drained
drain answers [] = stop []
drain [] (w ∷ ws) = stop (w ∷ ws)
drain (write_eintr ∷ answers) (w ∷ ws) = drain answers (w ∷ ws)
drain (write_eagain ∷ answers) (w ∷ ws) = stop (w ∷ ws)
drain (write_error ∷ answers) (w ∷ ws) = record { left = w ∷ ws; out = []; total = 0; lost = true }
drain (sent n ∷ answers) (w ∷ ws) =
    let rest = drain answers ws in
    if n == w.sz
    then count_in (unsent w) n rest
    else count_in (take n (unsent w)) n (stop (record w { ptr = w.ptr + n; sz = w.sz - n } ∷ ws))

-- Which of the two lists of a socket a `wb_list *` points to.
pub data Side : Type 0 where
  high low : Side

abbrev pub side : Side → Socket → List WriteBuffer
side high s = s.high
side low s = s.low

abbrev pub set_side : Side → List WriteBuffer → Socket → Socket
set_side high ws s = record s { high = ws }
set_side low ws s = record s { low = ws }

-- `send_list_tcp` on a list of the socket in the slot `k`.
unfoldable pub send_list_tcp :
    List WriteResult → Server → ℕ → Side → Option (Server × Option Report)
send_list_tcp answers s k l =
    let d = drain answers (side l (s.slots k)) in
    let t = put (call (wire (s.slots k).fd d.out) s) k (record (set_side l d.left (s.slots k)) {
      wb_size = ((s.slots k).wb_size + 2 ^ 64 - d.total) % 2 ^ 64;
    }) in
    if d.lost then (force_close t k >>= λ u. some (u, some closed)) else some (t, none)

-- `send_list`, which compares the socket's type with PROTOCOL_TCP.
unfoldable pub send_list : List WriteResult → Server → ℕ → Side → Option (Server × Option Report)
send_list answers s k l =
    if type_code (s.slots k).type == protocol_tcp
    then send_list_tcp answers s k l
    else some (s, some received)

-- `list_uncomplete`
abbrev pub list_uncomplete : List WriteBuffer → Bool
list_uncomplete [] = false
list_uncomplete (w ∷ ws) = not (w.ptr == 0)

abbrev pub is_nil : List WriteBuffer → Bool
is_nil [] = true
is_nil (w ∷ ws) = false

-- `raise_uncomplete`: the first buffer of the low list becomes the high list, which must be empty.
unfoldable pub raise_uncomplete : Server → ℕ → Option Server
raise_uncomplete s k = raise (s.slots k).low
  where
    raise : List WriteBuffer → Option Server
    raise [] = none
    raise (w ∷ ws) =
        if is_nil (s.slots k).high
        then some (put s k (record (s.slots k) { high = w ∷ []; low = ws }))
        else none

-- `send_buffer_empty`
abbrev pub send_buffer_empty : Server → ℕ → Bool
send_buffer_empty s k = is_nil (s.slots k).high && is_nil (s.slots k).low

abbrev pub is_closed : Option Report → Bool
is_closed (some closed) = true
is_closed r = false

-- The part of `send_buffer` behind the high list: the answers are those to the low list's writes.
unfoldable pub send_rest : List WriteResult → Server → ℕ → Option (Server × Option Report)
send_rest answers s k =
    if is_nil (s.slots k).high
    then (if is_nil (s.slots k).low
        then (let t = call (epoll_write (s.slots k).fd k false) s in
            if is (s.slots k).type halfclose
            then (force_close t k >>= λ u. some (u, some closed))
            else some (t, none))
        else (send_list answers s k low >>= λ (t, r).
            if is_closed r
            then some (t, some closed)
            else if list_uncomplete (t.slots k).low
            then (raise_uncomplete t k >>= λ u. some (u, none))
            else some (t, none)))
    else some (s, none)

-- `send_buffer`; the answers to the writes on the high list stand before those on the low list.
unfoldable pub send_buffer :
    List WriteResult → List WriteResult → Server → ℕ → Option (Server × Option Report)
send_buffer answers answers' s k =
    if list_uncomplete (s.slots k).low
    then none
    else (send_list answers s k high >>= λ (t, r).
        if is_closed r then some (t, some closed) else send_rest answers' t k)
