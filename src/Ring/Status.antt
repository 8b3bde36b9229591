-- ===== src/Ring/Status.antt =====
-- The queries of the ring buffer: Empty, Full, Space, GetSize and IsComplete.
use canna.Prelude.{
  ℕ, zero, suc, ◌+◌, ◌-◌, ◌*◌, ◌%◌, ◌≤◌, ◌<◌, ◌≡◌, refl, ◌↔◌, ◌⊎◌, true, false, List, [], ◌∷◌,
  arith, length, get_or, tabulate,
}
use canna.Ring.{RingBuffer, buffer_size, space, is_empty, is_full, get_size, is_complete}
use canna.Ring.Cells.{IsValid, count, cell_from, contents, available-count, space-count}
use canna.Ring.Refine.{length-contents}

-- `Space` and the bytes held make up all but one cell of the array.
pub space-contents : {r : RingBuffer} → IsValid r → space r + length (contents r) ≡ buffer_size - 1
space-contents {r} v = omega (arith, length-contents r, space-count v)

nil-length : (xs : List ℕ) → (length xs ≡ 0) ↔ (xs ≡ [])
nil-length [] = (λ _. refl, λ _. refl)
nil-length (x ∷ xs) = (λ e. absurd (omega arith), λ e. cc)

-- `Empty` holds exactly when there is no byte to read.
pub is_empty-contents : {r : RingBuffer} → IsValid r → (is_empty r ≡ true) ↔ (contents r ≡ [])
unfolding is_empty
is_empty-contents {r} v =
    ground (arith, (nil-length (contents r)).0, (nil-length (contents r)).1, length-contents r)

-- `Full` holds exactly when the head is at 0 and the tail is not on the last cell, whatever is held.
pub is_full_lem :
    {r : RingBuffer} → IsValid r → (is_full r ≡ true) ↔ (r.head ≡ 0) × (r.tail < buffer_size - 1)
unfolding is_full
is_full_lem v = ground arith

-- A buffer with no space left is never reported as full.
pub is_full-space : {r : RingBuffer} → IsValid r → space r ≡ 0 → is_full r ≡ false
unfolding is_full
is_full-space v h = ground (arith, space-count v)

tabulate-get_or : (f : ℕ → ℕ) (n i : ℕ) → i < n → get_or (tabulate f n) i 0 ≡ f i
tabulate-get_or f zero i h = absurd (omega arith)
tabulate-get_or f (suc n) zero h = refl
tabulate-get_or f (suc n) (suc i) h = tabulate-get_or (λ j. f (suc j)) n i (omega arith)

-- With two bytes at hand `GetSize` is the big-endian number of the two oldest; else it is 0.
pub get_size-contents :
    {r : RingBuffer}
    → IsValid r
    → ((length (contents r) < 2) × (get_size r ≡ 0))
      ⊎ ((2 ≤ length (contents r))
          × (get_size r ≡ get_or (contents r) 0 0 % 256 * 256 + get_or (contents r) 1 0 % 256))
unfolding get_size
get_size-contents {r} v = ground (
  arith,
  available-count v,
  length-contents r,
  tabulate-get_or (cell_from r.buffer r.head) (count r) 0,
  tabulate-get_or (cell_from r.buffer r.head) (count r) 1,
)

-- `IsComplete` holds when the bytes held reach the size that the package states, and also when
-- there are fewer than the two bytes that state it.
pub is_complete_lem :
    {r : RingBuffer}
    → IsValid r
    → (is_complete r ≡ true) ↔ (
        (length (contents r) < 2)
        ⊎ (get_or (contents r) 0 0 % 256 * 256 + get_or (contents r) 1 0 % 256
            ≤ length (contents r)))
unfolding is_complete
is_complete_lem {r} v = ground (arith, available-count v, length-contents r, get_size-contents v)
