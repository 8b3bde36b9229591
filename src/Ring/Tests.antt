-- ===== src/Ring/Tests.antt =====
-- The ring buffer at concrete inputs.
use canna.Prelude.{
  ◌+◌, ◌-◌, ◌*◌, ◌≤◌, ◌<◌, ◌≡◌, refl, ◌↔◌, ◌⊎◌, true, false, [], ◌∷◌, arith, tabulate, length,
  get_or,
}
use canna.Ring.{
  RingBuffer, Bytes, buffer_size, initialize, available, space, write, read, is_full, get_size,
  is_complete,
}
use canna.Ring.Cells.{IsValid, contents}
use canna.Ring.Queue
use canna.Ring.Refine.{writes, reads, run, run_queue, run_refines, write_refines, read_refines}
use canna.Ring.Dump.{dump, dump_queue, dump_refines}
use canna.Ring.Status.{
  space-contents, is_full_lem, is_full-space, get_size-contents, is_complete_lem,
}

-- Bytes 1, 2, 3, ...
abbrev counting : Bytes
counting i = i + 1

-- Three bytes, 7, 8 and 9, of which the last two have gone round the end of the array.
abbrev wrapped : RingBuffer
wrapped = record { buffer = λ i. get_or (8 ∷ 9 ∷ []) i 7; head = buffer_size - 1; tail = 2 }

-- No room: the tail is just behind the head.
abbrev crammed : RingBuffer
crammed = record { buffer = λ _. 0; head = 0; tail = buffer_size - 1 }

wrapped-IsValid : IsValid wrapped
wrapped-IsValid = omega arith

contents-wrapped : contents wrapped ≡ 7 ∷ 8 ∷ 9 ∷ []
contents-wrapped = refl

write_at_the_end : contents (write wrapped counting 2).0 ≡ 7 ∷ 8 ∷ 9 ∷ 1 ∷ 2 ∷ []
unfolding write space available
write_at_the_end = refl

write_too_much : (write wrapped counting (buffer_size - 3)).1 ≡ 0
unfolding write space available
write_too_much = refl

read_round_the_end : tabulate (read wrapped (λ _. 0) 3).1 4 ≡ 7 ∷ 8 ∷ 9 ∷ 0 ∷ []
unfolding read available
read_round_the_end = refl

full_is_not_reported : (space crammed ≡ 0) × (is_full crammed ≡ false) × (is_full initialize ≡ true)
unfolding space available is_full initialize
full_is_not_reported = (refl, refl, refl)

empty_is_complete : is_complete initialize ≡ true
unfolding is_complete get_size available initialize
empty_is_complete = refl

write_refines_test :
    let (r', n) = write wrapped counting 2 in
    (contents r', n) ≡ Queue.put (buffer_size - 1) (contents wrapped) (1 ∷ 2 ∷ [])
write_refines_test = write_refines counting 2 wrapped-IsValid

read_refines_test :
    let (r', out, n) = read wrapped (λ _. 0) 2 in
    (contents r', tabulate out n, n) ≡ Queue.get (contents wrapped) 2
read_refines_test = read_refines (λ _. 0) 2 wrapped-IsValid

run_refines_example :
    run wrapped (writes counting 1 ∷ reads 2 ∷ [])
    ≡ run_queue (contents wrapped) (writes counting 1 ∷ reads 2 ∷ [])
run_refines_example = run_refines (writes counting 1 ∷ reads 2 ∷ []) wrapped-IsValid

space-contents_test : space wrapped + length (contents wrapped) ≡ buffer_size - 1
space-contents_test = space-contents wrapped-IsValid

is_full_lem_test : (is_full wrapped ≡ true) ↔ (wrapped.head ≡ 0) × (wrapped.tail < buffer_size - 1)
is_full_lem_test = is_full_lem wrapped-IsValid

is_full-space_test : is_full crammed ≡ false
unfolding space available
is_full-space_test = is_full-space {r = crammed} (omega arith) refl

get_size-contents_test :
    ((length (contents wrapped) < 2) × (get_size wrapped ≡ 0))
    ⊎ ((2 ≤ length (contents wrapped)) × (get_size wrapped ≡ 7 * 256 + 8))
get_size-contents_test = get_size-contents wrapped-IsValid

is_complete_lem_test :
    (is_complete wrapped ≡ true) ↔ ((length (contents wrapped) < 2) ⊎ (7 * 256 + 8 ≤ 3))
is_complete_lem_test = is_complete_lem wrapped-IsValid

-- Three bytes are too few for the first read; what they are comes out first.
dump_prints :
    (dump_queue (7 ∷ 8 ∷ 9 ∷ [])).0
    ≡ b'd' ∷ b'e' ∷ b'f' ∷ b'g' ∷ b'h' ∷ b'i' ∷ b'j' ∷ b'k' ∷ b'l' ∷ b'm' ∷ b'n' ∷ b'o' ∷ []
unfolding dump_queue Queue.get Queue.put
dump_prints = refl

dump_refines_test :
    IsValid (dump wrapped).0
    × ((contents (dump wrapped).0, (dump wrapped).1) ≡ dump_queue (contents wrapped))
dump_refines_test = dump_refines wrapped-IsValid
