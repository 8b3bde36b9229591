-- ===== src/Ring/Dump.antt =====
-- core/ringbuffer.cpp: Dump, a drill of reads and writes, and the text that it prints by itself.
use canna.Prelude.{
  ℕ, ◌-◌, ◌≡◌, refl, ap, sym, List, [], ◌∷◌, ◌++◌, tabulate, get_or, ◌==◌, if◌then◌else◌,
}
use canna.Ring.{RingBuffer, Bytes, buffer_size, write, read}
use canna.Ring.Cells.{IsValid, contents, write-IsValid, read-IsValid}
use canna.Ring.Queue
use canna.Ring.Refine.{write_refines, read_refines}

-- The 20 letters of `array`, and the block `buffer`, cleared.
abbrev pub letters : Bytes
letters i =
    get_or
      (b'a' ∷ b'b' ∷ b'c' ∷ b'd' ∷ b'e' ∷ b'f' ∷ b'g' ∷ b'h' ∷ b'i' ∷ b'j' ∷ b'k' ∷ b'l' ∷ b'm'
        ∷ b'n' ∷ b'o' ∷ b'p' ∷ b'q' ∷ b'r' ∷ b's' ∷ b't' ∷ [])
      i 0

abbrev pub zeros : Bytes
zeros i = 0

-- "please waiting" and a line feed.
abbrev pub please_waiting : List ℕ
please_waiting =
    b'p' ∷ b'l' ∷ b'e' ∷ b'a' ∷ b's' ∷ b'e' ∷ b' ' ∷ b'w' ∷ b'a' ∷ b'i' ∷ b't' ∷ b'i' ∷ b'n' ∷ b'g'
    ∷ 10 ∷ []

-- The loop that prints as many bytes as were read, and the line feed behind it.
abbrev pub printed : ℕ → Bytes → List ℕ
printed size buffer = tabulate buffer size ++ 10 ∷ []

-- `Dump`: the ring and the text.
unfoldable pub dump : RingBuffer → RingBuffer × List ℕ
dump r =
    let (r, buffer, size) = read r zeros 1024 in
    let waits = if size == 0 then please_waiting else [] in
    let (r, taken) = write r letters 6 in
    let (r, taken) = write r letters 10 in
    let (r, buffer, size) = read r zeros 4 in
    let first = printed size buffer in
    let (r, taken) = write r letters 10 in
    let (r, buffer, size) = read r zeros 12 in
    let second = printed size buffer in
    let (r, buffer, size) = read r zeros 1 in
    let (r, taken) = write r letters 15 in
    let (r, buffer, size) = read r zeros 15 in (r, waits ++ first ++ second ++ printed size buffer)

-- The same drill on a queue.
abbrev pub put_letters : ℕ → Queue.Queue → Queue.Queue
put_letters n q = (Queue.put (buffer_size - 1) q (tabulate letters n)).0

abbrev pub line : List ℕ → List ℕ
line bytes = bytes ++ 10 ∷ []

unfoldable pub dump_queue : Queue.Queue → Queue.Queue × List ℕ
dump_queue q =
    let (q, bytes, size) = Queue.get q 1024 in
    let waits = if size == 0 then please_waiting else [] in
    let (q, first, size) = Queue.get (put_letters 10 (put_letters 6 q)) 4 in
    let (q, second, size) = Queue.get (put_letters 10 q) 12 in
    let (q, skipped, size) = Queue.get q 1 in
    let (q, third, size) = Queue.get (put_letters 15 q) 15 in
    (q, waits ++ line first ++ line second ++ line third)

put_letters-write :
    (n : ℕ) {r : RingBuffer}
    → IsValid r
    → put_letters n (contents r) ≡ contents (write r letters n).0
put_letters-write n v = ap (λ p. p.0) (sym (write_refines letters n v))

-- `Dump` on a valid ring buffer leaves a valid one, and both what it prints and what is left in the
-- buffer are those of the same reads and writes on the queue of its contents.
pub dump_refines :
    {r : RingBuffer}
    → IsValid r
    → IsValid (dump r).0 × ((contents (dump r).0, (dump r).1) ≡ dump_queue (contents r))
unfolding dump dump_queue
dump_refines {r} v =
    let v1 = read-IsValid zeros 1024 v in
    let v2 = write-IsValid letters 6 v1 in
    let v3 = write-IsValid letters 10 v2 in
    let v4 = read-IsValid zeros 4 v3 in
    let v5 = write-IsValid letters 10 v4 in
    let v6 = read-IsValid zeros 12 v5 in
    let v7 = read-IsValid zeros 1 v6 in
    let v8 = write-IsValid letters 15 v7 in
    let v9 = read-IsValid zeros 15 v8 in
    (
      v9,
      rw
          (
            ← read_refines zeros 1024 v,
            put_letters-write 6 v1,
            put_letters-write 10 v2,
            ← read_refines zeros 4 v3,
            put_letters-write 10 v4,
            ← read_refines zeros 12 v5,
            ← read_refines zeros 1 v6,
            put_letters-write 15 v7,
            ← read_refines zeros 15 v8,
          )
          refl,
    )
