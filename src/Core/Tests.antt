-- ===== src/Core/Tests.antt =====
-- The helpers at concrete inputs.
use canna.Prelude.{
  ◌-◌, ◌^◌, ◌≤◌, ◌≡◌, ◌↔◌, refl, true, false, [], ◌∷◌, ◌++◌, some, arith, replicate, ◌||◌,
}
use canna.Core.{
  canna_rand, to_float, round_off, digits, set_id, is_text, print_bytes, dump_part, dump_parts,
  dump,
}
use canna.Core.Time.{canna_rand_bounds}
use canna.Core.Identity.{parse_id, parse_id-set_id}
use canna.Core.Dumped.{any_binary, text_lines, dump_lem}

-- "00FF-10000"
id_of_numbers :
    set_id 255 65536 ≡ b'0' ∷ b'0' ∷ b'F' ∷ b'F' ∷ b'-' ∷ b'1' ∷ b'0' ∷ b'0' ∷ b'0' ∷ b'0' ∷ []
unfolding set_id digits
id_of_numbers = refl

rand_of_most : canna_rand (2 ^ 31 - 1) ≡ 65536
unfolding canna_rand to_float round_off
rand_of_most = refl

-- A part of twelve letters behind the byte 0x80: "[001]ffffff80" and "[00c]AAAAAAAAAAAA".
two_parts : dump_parts false ((128 ∷ []) ∷ replicate 12 b'A' ∷ []) ≡ (
  true,
  (b'[' ∷ b'0' ∷ b'0' ∷ b'1' ∷ b']' ∷ (replicate 6 b'f' ++ b'8' ∷ b'0' ∷ 10 ∷ []))
      ++ (b'[' ∷ b'0' ∷ b'0' ∷ b'c' ∷ b']' ∷ (replicate 12 b'A' ++ 10 ∷ [])),
)
unfolding dump_parts dump_part is_text print_bytes digits
two_parts = refl

canna_rand_bounds_test :
    (canna_rand 65535 ≤ 2 ^ 16) × ((canna_rand 65535 ≡ 2 ^ 16) ↔ (2 ^ 31 - 64 ≤ 65535))
canna_rand_bounds_test = canna_rand_bounds 65535 (omega arith)

parse_id-set_id_test : parse_id (set_id 255 65536) ≡ some (255, 65536)
parse_id-set_id_test = parse_id-set_id 255 65536 (omega arith) (omega arith)

dump_lem_test :
    ((dump true ((7 ∷ []) ∷ [])).0 ≡ (true || any_binary ((7 ∷ []) ∷ [])))
    × (any_binary ((7 ∷ []) ∷ []) ≡ false
        → (dump true ((7 ∷ []) ∷ [])).1
          ≡ replicate 50 b'-' ++ 10 ∷ [] ++ text_lines true ((7 ∷ []) ∷ []))
dump_lem_test = dump_lem true ((7 ∷ []) ∷ [])
