-- ===== src/Core.antt =====
-- core/canna_core.h and canna_core.cpp: the clock, random identities and the dump of a message.
-- name_server::sock_dump and sock_setid in nameserver/name_server.cpp have the same bodies.
pub mod Time
pub mod Digits
pub mod Identity
pub mod Dumped
mod Tests
use canna.Prelude.{
  ℕ, zero, suc, ◌+◌, ◌-◌, ◌*◌, ◌/◌, ◌%◌, ◌^◌, Bool, true, false, not, List, [], ◌∷◌, ◌++◌,
  if◌then◌else◌, ltb, leb, ◌==◌, ◌&&◌, ◌||◌, length, replicate,
}

-- `canna_gettime`, from what `gettimeofday` fills in.
unfoldable pub get_time : ℕ → ℕ → ℕ
get_time tv_sec tv_usec = (tv_sec * 1000 % 2 ^ 64 + tv_usec / 1000) % 2 ^ 64

-- `canna_sleep`: the seconds and the nanoseconds given to `nanosleep`, for a time that is not
-- negative.
unfoldable pub sleep : ℕ → ℕ × ℕ
sleep msecs = (msecs / 1000, msecs % 1000 * 1000000)

-- `(float)` of a number below 2 ^ 31 with `e` bits too many for the 24 of a float: rounded to the
-- nearest, and to the even one of two.
unfoldable pub round_off : ℕ → ℕ → ℕ
round_off e r =
    let q = r / 2 ^ e in
    let rest = r % 2 ^ e * 2 in
    if ltb rest (2 ^ e) || (rest == 2 ^ e && q % 2 == 0) then q * 2 ^ e else (q + 1) * 2 ^ e

unfoldable pub to_float : ℕ → ℕ
to_float r =
    if ltb r (2 ^ 24)
    then r
    else if ltb r (2 ^ 25)
    then round_off 1 r
    else if ltb r (2 ^ 26)
    then round_off 2 r
    else if ltb r (2 ^ 27)
    then round_off 3 r
    else if ltb r (2 ^ 28)
    then round_off 4 r
    else if ltb r (2 ^ 29)
    then round_off 5 r
    else if ltb r (2 ^ 30)
    then round_off 6 r
    else round_off 7 r

-- `CANNA_RAND(0x10000)`, from what `random` returns: the product with a power of two is exact.
unfoldable pub canna_rand : ℕ → ℕ
canna_rand r = 2 ^ 16 * to_float r / 2 ^ 31

-- A digit, in upper or lower case.
abbrev pub digit : Bool → ℕ → ℕ
digit upper d = if ltb d 10 then b'0' + d else (if upper then b'A' else b'a') + (d - 10)

-- A number of at most so many digits, as a stream prints it in a base.
unfoldable pub digits : Bool → ℕ → ℕ → ℕ → List ℕ
digits upper base zero n = []
digits upper base (suc left) n =
    let rest = digits upper base left (n / base) in
    if ltb n base then digit upper n ∷ [] else rest ++ digit upper (n % base) ∷ []

-- `std::setfill('0') << std::setw(width)`
abbrev pub padded : ℕ → List ℕ → List ℕ
padded width text = replicate (width - length text) b'0' ++ text

-- The two numbers of `canna_setid`, in hexadecimal.
unfoldable pub set_id : ℕ → ℕ → List ℕ
set_id a b = padded 4 (digits true 16 8 a) ++ b'-' ∷ padded 4 (digits true 16 8 b)

-- The base of the stream `std::cout` when it prints a number of 32 bits.
abbrev pub print_number : Bool → ℕ → ℕ → List ℕ
print_number hex width n = padded width (if hex then digits false 16 8 n else digits false 10 10 n)

-- The first loop of `canna_dump`.
unfoldable pub is_text : List ℕ → Bool
is_text [] = true
is_text (c ∷ data_) = not (ltb c 32 || ltb 127 c) && is_text data_

-- `(unsigned int)data[count]`, where `char` is signed.
abbrev pub widened : ℕ → ℕ
widened c = if ltb c 128 then c else 2 ^ 32 - 256 + c

-- The second loop on binary data; `std::hex` stays set.
unfoldable pub print_bytes : List ℕ → List ℕ
print_bytes [] = []
print_bytes (c ∷ rest) = print_number true 2 (widened c) ++ print_bytes rest

-- One part of a message: whether the stream is hexadecimal behind it, and the line.
unfoldable pub dump_part : Bool → List ℕ → Bool × List ℕ
dump_part hex part =
    let size = b'[' ∷ (print_number hex 3 (length part) ++ b']' ∷ []) in
    if is_text part
    then (hex, size ++ (part ++ 10 ∷ []))
    else (true, size ++ (print_bytes part ++ 10 ∷ []))

-- The loop of `canna_dump` over the parts of a message, up to the one behind which ZMQ_RCVMORE is 0.
unfoldable pub dump_parts : Bool → List (List ℕ) → Bool × List ℕ
dump_parts hex [] = (hex, [])
dump_parts hex (part ∷ parts) =
    let line = dump_part hex part in
    let rest = dump_parts line.0 parts in (rest.0, line.1 ++ rest.1)

-- `canna_dump`
unfoldable pub dump : Bool → List (List ℕ) → Bool × List ℕ
dump hex parts = let rest = dump_parts hex parts in (rest.0, replicate 50 b'-' ++ 10 ∷ [] ++ rest.1)
