-- ===== src/Ring/Refine.antt =====
-- A valid ring buffer behaves as the bounded queue of its contents.
use canna.Prelude.{
  ℕ, zero, suc, ◌+◌, ◌-◌, ◌%◌, ◌≤◌, ◌≡◌, refl, ap, ap₂, ◌∙◌, sym, inl, inr, false, List, [], ◌∷◌,
  ◌++◌, arith, leb, tabulate, length, take, drop, length-tabulate, tabulate_ext, tabulate-add,
  Bool-cases, leb→le,
}
use canna.Ring.{RingBuffer, Bytes, buffer_size, write, read}
use canna.Ring.Cells.{
  IsValid, count, cell_from, contents, available-count, space-count, write_fills, write_keeps,
  read_fills, write-IsValid, read-IsValid,
}
use canna.Ring.Queue

pub length-contents : (r : RingBuffer) → length (contents r) ≡ count r
length-contents r = length-tabulate (cell_from r.buffer r.head) (count r)

module _ {ℓ} {A : Type ℓ} where
  take-append_exact : (xs ys : List A) (n : ℕ) → n ≡ length xs → take n (xs ++ ys) ≡ xs
  take-append_exact [] ys zero e = refl
  take-append_exact [] ys (suc n) e = absurd (omega arith)
  take-append_exact (x ∷ xs) ys zero e = absurd (omega arith)
  take-append_exact (x ∷ xs) ys (suc n) e =
      ap (λ t. x ∷ t) (take-append_exact xs ys n (omega arith))

  drop-append_exact : (xs ys : List A) (n : ℕ) → n ≡ length xs → drop n (xs ++ ys) ≡ ys
  drop-append_exact [] ys zero e = refl
  drop-append_exact [] ys (suc n) e = absurd (omega arith)
  drop-append_exact (x ∷ xs) ys zero e = absurd (omega arith)
  drop-append_exact (x ∷ xs) ys (suc n) e = drop-append_exact xs ys n (omega arith)

write_shape :
    {r : RingBuffer} (buff : Bytes) (len : ℕ)
    → IsValid r
    → len ≤ buffer_size - 1 - count r
    → (count (write r buff len).0 ≡ count r + len)
      × ((write r buff len).0.head ≡ r.head)
      × ((write r buff len).1 ≡ len)
unfolding write
write_shape {r} buff len v fits = ground (arith, space-count v)

write_appends :
    {r : RingBuffer} (buff : Bytes) (len : ℕ)
    → IsValid r
    → len ≤ buffer_size - 1 - count r
    → contents (write r buff len).0 ≡ contents r ++ tabulate buff len
write_appends {r} buff len v fits =
    let w = (write r buff len).0 in
    let (grown, head_stays, _) = write_shape buff len v fits in
    tabulate-add (cell_from w.buffer w.head) (count r) len (count w) grown
    ∙ ap₂ ◌++◌
        (tabulate_ext (cell_from w.buffer w.head) (cell_from r.buffer r.head) (count r) (λ i h.
          ap (λ (k : ℕ). w.buffer ((k + i) % buffer_size)) head_stays
          ∙ write_keeps buff len i v fits h))
        (tabulate_ext (λ i. cell_from w.buffer w.head (count r + i)) buff len
          (λ i h. ap w.buffer (rw head_stays (omega arith)) ∙ write_fills buff len i v fits h))

write_refused :
    {r : RingBuffer} (buff : Bytes) (len : ℕ)
    → IsValid r
    → leb len (buffer_size - 1 - count r) ≡ false
    → write r buff len ≡ (r, 0)
unfolding write
write_refused {r} buff len v h = ground (arith, space-count v)

-- `Write` behaves as the queue's `put`: a block that fits is appended whole, any other changes
-- nothing, and the result is the number of bytes taken.
pub write_refines :
    {r : RingBuffer} (buff : Bytes) (len : ℕ)
    → IsValid r
    → let (r', n) = write r buff len in
      (contents r', n) ≡ Queue.put (buffer_size - 1) (contents r) (tabulate buff len)
unfolding Queue.put
write_refines {r} buff len v = elim (Bool-cases (leb len (buffer_size - 1 - count r))) [
  | inl fits ↦
      rw (length-tabulate buff len, length-contents r, fits)
        (let p = leb→le _ _ fits in
          ap₂ (λ (q : List ℕ) (n : ℕ). (q, n)) (write_appends buff len v p)
            ((write_shape buff len v p).2))
  | inr full ↦
      rw (length-tabulate buff len, length-contents r, full, write_refused buff len v full) refl
]

read_shape :
    {r : RingBuffer} (buff : Bytes) (len : ℕ)
    → IsValid r
    → len ≤ count r
    → (count r ≡ len + count (read r buff len).0)
      × ((read r buff len).0.head ≡ (r.head + len) % buffer_size)
      × ((read r buff len).0.buffer ≡ r.buffer)
      × ((read r buff len).2 ≡ len)
unfolding read
read_shape {r} buff len v fits = ground (arith, available-count v)

read_refused :
    {r : RingBuffer} (buff : Bytes) (len : ℕ)
    → IsValid r
    → leb len (count r) ≡ false
    → read r buff len ≡ (r, buff, 0)
unfolding read
read_refused {r} buff len v h = ground (arith, available-count v)

-- What is read stands in front of what is left.
read_splits :
    {r : RingBuffer} (buff : Bytes) (len : ℕ)
    → IsValid r
    → len ≤ count r
    → let (r', out, _) = read r buff len in contents r ≡ tabulate out len ++ contents r'
read_splits {r} buff len v fits =
    let s = (read r buff len).0 in
    let (total, moved, same, _) = read_shape buff len v fits in
    tabulate-add (cell_from r.buffer r.head) len (count s) (count r) total
    ∙ ap₂ ◌++◌
        (tabulate_ext (cell_from r.buffer r.head) (read r buff len).1 len
          (λ i h. sym (read_fills buff len i v fits h)))
        (tabulate_ext (λ i. cell_from r.buffer r.head (len + i)) (cell_from s.buffer s.head)
          (count s) (λ i h. rw (same, moved) (ap r.buffer (omega arith))))

-- `Read` behaves as the queue's `get`: as many bytes as are asked for, oldest first, leave the
-- queue for the caller's block, or, if there are not as many, nothing changes and 0 is returned.
pub read_refines :
    {r : RingBuffer} (buff : Bytes) (len : ℕ)
    → IsValid r
    → let (r', out, n) = read r buff len in
      (contents r', tabulate out n, n) ≡ Queue.get (contents r) len
unfolding Queue.get
read_refines {r} buff len v = elim (Bool-cases (leb len (count r))) [
  | inl fits ↦
      let p = leb→le _ _ fits in
      let (_, _, _, n) = read_shape buff len v p in
      let split = read_splits buff len v p in
      let out = tabulate (read r buff len).1 len in
      rw (length-contents r, fits, n)
        (ap₂ (λ (q b : List ℕ). (q, b, len))
          (sym (ap (drop len) split ∙ drop-append_exact out _ len (sym (length-tabulate _ len))))
          (sym (ap (take len) split ∙ take-append_exact out _ len (sym (length-tabulate _ len)))))
  | inr short ↦ rw (length-contents r, short, read_refused buff len v short) refl
]

-- A client's calls, and what each returns: the count, and the bytes read.
pub data Op : Type 0 where
  writes : Bytes → ℕ → Op
  reads : ℕ → Op

abbrev pub Reply : Type 0
Reply = ℕ × List ℕ

-- Each call in turn; a read starts on a cleared block.
pub run : RingBuffer → List Op → List Reply
run r [] = []
run r (writes buff len ∷ ops) = let (r', n) = write r buff len in (n, []) ∷ run r' ops
run r (reads len ∷ ops) = let (r', out, n) = read r (λ _. 0) len in (n, tabulate out n) ∷ run r' ops

pub run_queue : Queue.Queue → List Op → List Reply
run_queue q [] = []
run_queue q (writes buff len ∷ ops) =
    let (q', n) = Queue.put (buffer_size - 1) q (tabulate buff len) in (n, []) ∷ run_queue q' ops
run_queue q (reads len ∷ ops) = let (q', out, n) = Queue.get q len in (n, out) ∷ run_queue q' ops

-- No sequence of calls tells a valid ring buffer from the bounded queue of its contents.
pub run_refines :
    (ops : List Op) {r : RingBuffer} → IsValid r → run r ops ≡ run_queue (contents r) ops
unfolding run run_queue
run_refines [] v = refl
run_refines (writes buff len ∷ ops) v =
    rw (run_refines ops (write-IsValid buff len v), ← write_refines buff len v)
run_refines (reads len ∷ ops) v =
    rw (run_refines ops (read-IsValid (λ _. 0) len v), ← read_refines (λ _. 0) len v)
