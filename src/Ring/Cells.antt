-- ===== src/Ring/Cells.antt =====
-- The representation invariant of the ring buffer, the bytes that it holds, and what a write does
-- to each cell of the array.
use canna.Prelude.{ℕ, ◌+◌, ◌-◌, ◌%◌, ◌≤◌, ◌<◌, ◌≡◌, List, arith, tabulate}
use canna.Ring.{RingBuffer, Bytes, buffer_size, initialize, available, space, write, read}

pub record IsValid (r : RingBuffer) : Type 0 where
  pub head_in : r.head < buffer_size
  pub tail_in : r.tail < buffer_size

-- The number of bytes between the head and the tail, going round.
abbrev pub count : RingBuffer → ℕ
count r = (r.tail + buffer_size - r.head) % buffer_size

-- The cell that is `i` places behind an index, going round.
abbrev pub cell_from : Bytes → ℕ → ℕ → ℕ
cell_from b start i = b ((start + i) % buffer_size)

-- The bytes that wait to be read, oldest first.
abbrev pub contents : RingBuffer → List ℕ
contents r = tabulate (cell_from r.buffer r.head) (count r)

pub available-count : {r : RingBuffer} → IsValid r → available r ≡ count r
unfolding available
available-count v = ground arith

pub space-count : {r : RingBuffer} → IsValid r → space r ≡ buffer_size - 1 - count r
unfolding space
space-count v = omega (arith, available-count v)

pub initialize-IsValid : IsValid initialize
unfolding initialize
initialize-IsValid = record { head_in = omega arith; tail_in = omega arith }

pub write-IsValid :
    {r : RingBuffer} (buff : Bytes) (len : ℕ) → IsValid r → IsValid (write r buff len).0
unfolding write
write-IsValid buff len v = ground arith

pub read-IsValid :
    {r : RingBuffer} (buff : Bytes) (len : ℕ) → IsValid r → IsValid (read r buff len).0
unfolding read
read-IsValid buff len v = ground arith

-- The write that is made, at the cells that it fills.
pub write_fills :
    {r : RingBuffer} (buff : Bytes) (len i : ℕ)
    → IsValid r
    → len ≤ buffer_size - 1 - count r
    → i < len
    → cell_from (write r buff len).0.buffer r.tail i ≡ buff i
unfolding write
write_fills {r} buff len i v fits h = ground (arith, space-count v)

-- The cells beyond the bytes written, going round, keep what they hold.
pub write_keeps :
    {r : RingBuffer} (buff : Bytes) (len i : ℕ)
    → IsValid r
    → len ≤ buffer_size - 1 - count r
    → i < count r
    → cell_from (write r buff len).0.buffer r.head i ≡ cell_from r.buffer r.head i
unfolding write
write_keeps {r} buff len i v fits h = ground (arith, space-count v)

-- The read that is made, at the bytes that it hands over.
pub read_fills :
    {r : RingBuffer} (buff : Bytes) (len i : ℕ)
    → IsValid r
    → len ≤ count r
    → i < len
    → (read r buff len).1 i ≡ cell_from r.buffer r.head i
unfolding read
read_fills {r} buff len i v fits h = ground (arith, available-count v)
