-- ===== src/Ring.antt =====
-- core/ringbuffer.h and core/ringbuffer.cpp: a byte queue in an array whose size is a power of two.
-- An `int` or `long int` result is the 64-bit pattern that it has after the conversion to
-- `unsigned long int`, which is how the code compares and returns it.
pub mod Cells
pub mod Queue
pub mod Refine
pub mod Dump
pub mod Status
mod Tests
use canna.Prelude.{ℕ, ◌+◌, ◌-◌, ◌*◌, ◌/◌, ◌%◌, ◌^◌, Bool, if◌then◌else◌, ltb, leb, ◌==◌, not}

-- `BUFFER_SIZE`; `x & BUFFER_MASK` is `x % buffer_size`.
abbrev pub buffer_size : ℕ
buffer_size = 8192 * 8

-- A block of memory: the byte at each offset from a pointer.
abbrev pub Bytes : Type 0
Bytes = ℕ → ℕ

-- `memcpy(dst + at, src + from, n)`
abbrev pub memcpy : Bytes → ℕ → Bytes → ℕ → ℕ → Bytes
memcpy dst at src from n i =
    if leb at i then (if ltb i (at + n) then src (from + (i - at)) else dst i) else dst i

pub record RingBuffer : Type 0 where
  pub buffer : Bytes
  pub head : ℕ
  pub tail : ℕ

-- `Initialize`
unfoldable pub initialize : RingBuffer
initialize = record { buffer = λ _. 0; head = 0; tail = 0 }

-- An `unsigned int` returned as `int` and then compared with an `unsigned long int`.
abbrev pub sign_extend : ℕ → ℕ
sign_extend x = if ltb x (2 ^ 31) then x else 2 ^ 64 - 2 ^ 32 + x

-- `Available`
unfoldable pub available : RingBuffer → ℕ
available r = sign_extend (
    if leb r.head r.tail
    then r.tail - r.head
    else (r.tail + 2 ^ 32 - r.head + buffer_size) % 2 ^ 32)

-- `Space`
unfoldable pub space : RingBuffer → ℕ
space r = (2 ^ 64 + buffer_size - 1 - available r) % 2 ^ 64

-- `Empty`
unfoldable pub is_empty : RingBuffer → Bool
is_empty r = r.head == r.tail

-- `Full`, which masks by the one bit of BUFFER_SIZE and not by BUFFER_MASK.
unfoldable pub is_full : RingBuffer → Bool
is_full r = (r.tail + 1) % 2 ^ 32 / buffer_size % 2 * buffer_size == r.head

-- `BUFFER_SIZE - index`, in `unsigned int`.
abbrev pub rest_from : ℕ → ℕ
rest_from index = (buffer_size + 2 ^ 32 - index) % 2 ^ 32

-- `(index + len) & BUFFER_MASK`, in `unsigned long int`.
abbrev pub advance : ℕ → ℕ → ℕ
advance index len = (index + len) % 2 ^ 64 % buffer_size

-- `Write`: the new ring and the number of bytes written.
unfoldable pub write : RingBuffer → Bytes → ℕ → RingBuffer × ℕ
write r buff len = if ltb (space r) len then (r, 0) else (
  record r {
    buffer =
        if leb len (rest_from r.tail)
        then memcpy r.buffer r.tail buff 0 len
        else memcpy (memcpy r.buffer r.tail buff 0 (rest_from r.tail)) 0 buff (rest_from r.tail)
            (len - rest_from r.tail);
    tail = advance r.tail len;
  },
  len,
)

-- `Read`: the new ring, the caller's block and the number of bytes read.
unfoldable pub read : RingBuffer → Bytes → ℕ → RingBuffer × Bytes × ℕ
read r buff len = if ltb (available r) len then (r, buff, 0) else (
  record r { head = advance r.head len },
  (if leb len (rest_from r.head)
      then memcpy buff 0 r.buffer r.head len
      else memcpy (memcpy buff 0 r.buffer r.head (rest_from r.head)) (rest_from r.head) r.buffer 0
          (len - rest_from r.head)),
  len,
)

-- `a < b` between two `long int`.
abbrev pub signed_lt : ℕ → ℕ → Bool
signed_lt a b = ltb ((a + 2 ^ 63) % 2 ^ 64) ((b + 2 ^ 63) % 2 ^ 64)

-- `GetSize`: the big-endian 16-bit length at the head of a package.
unfoldable pub get_size : RingBuffer → ℕ
get_size r =
    if signed_lt (available r) 2
    then 0
    else r.buffer r.head % 256 * 2 ^ 8 + r.buffer ((r.head + 1) % 2 ^ 32 % buffer_size) % 256

-- `IsComplete`
unfoldable pub is_complete : RingBuffer → Bool
is_complete r = not (signed_lt (available r) (get_size r))
