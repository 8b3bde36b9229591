-- ===== src/Ring/Queue.antt =====
-- What a client of the ring buffer may rely on: a queue of at most `capacity` bytes that takes and
-- gives blocks whole or not at all.
use canna.Prelude.{ℕ, ◌-◌, List, [], ◌++◌, leb, if◌then◌else◌, length, take, drop}

abbrev pub Queue : Type 0
Queue = List ℕ

-- The new queue and the number of bytes taken.
unfoldable pub put : ℕ → Queue → List ℕ → Queue × ℕ
put capacity q bytes =
    if leb (length bytes) (capacity - length q) then (q ++ bytes, length bytes) else (q, 0)

-- The new queue, the bytes given and their number.
unfoldable pub get : Queue → ℕ → Queue × List ℕ × ℕ
get q n = if leb n (length q) then (drop n q, take n q, n) else (q, [], 0)
