-- ===== src/Async/Requests.antt =====
-- example/asyncclient.h: what fits the arrays of the client.
use canna.Prelude.{
  ℕ, zero, suc, ◌+◌, ◌-◌, ◌^◌, ◌<◌, ◌≡◌, refl, ap, ◌∙◌, inl, inr, true, false, List, [], ◌∷◌, ◌++◌,
  none, some, if◌then◌else◌, ltb, length, length-append, length-replicate, replicate, arith,
  Bool-cases,
}
use canna.Broker.{Frame}
use canna.Core.{digits, set_id, padded}
use canna.Pipeline.Message.{length-digits}
use canna.Async.{
  print_into, request_start, request_text, AsyncClient, start, send_next, send_rounds,
}

-- The requests from 1 on.
abbrev pub requests : ℕ → List Frame
requests zero = []
requests (suc n) = requests n ++ request_text (n + 1) ∷ []

-- The client behind so many rounds.
abbrev pub after : Frame → ℕ → AsyncClient
after identity n = record { identity = identity; sent = requests n; count = n }

short_text : (n : ℕ) → n < 10 ^ 6 → print_into 16 (request_text n) ≡ some (request_text n)
unfolding print_into request_text
short_text n h =
    let text = digits false 10 10 n in
    let short : length (request_start ++ text) < 16 =
      omega (arith, length-append request_start text, length-digits 10 6 n (omega arith) h) in
    ground (arith, short)

long_text : print_into 16 (request_text (10 ^ 6)) ≡ none
unfolding print_into request_text digits
long_text = refl

send_next-after :
    (identity : Frame) (n : ℕ)
    → n + 1 < 10 ^ 6
    → send_next (after identity n) ≡ some (after identity (suc n))
unfolding send_next
send_next-after identity n h =
    rw (short_text (n + 1) h, send_next)
      (ap (λ (k : ℕ). some (record (after identity (suc n)) { count = k })) (omega arith))

send_next-long : (identity : Frame) → send_next (after identity 999999) ≡ none
unfolding send_next
send_next-long identity = rw (long_text, send_next) refl

-- A client that has just started, whatever its name, sends in its rounds the requests from 1 on, as
-- they are numbered, as long as there are fewer than a million rounds; the request 1000000
-- overflows its array of 16 bytes.
pub send_rounds-requests :
    (identity : Frame) (n : ℕ)
    → send_rounds n (after identity 0) ≡ (if ltb n (10 ^ 6) then some (after identity n) else none)
unfolding send_rounds
send_rounds-requests identity zero = refl
send_rounds-requests identity (suc n) = elim (Bool-cases (ltb (suc n) (10 ^ 6))) [
  | inl more ↦
      let before : ltb n (10 ^ 6) ≡ true = ground (arith, more) in
      rw (more, send_rounds-requests identity n, before, send_rounds)
        (send_next-after identity n (ground (arith, more)))
  | inr over ↦ elim (Bool-cases (ltb n (10 ^ 6))) [
    | inr long_over ↦ rw (over, send_rounds-requests identity n, long_over, send_rounds) refl
    | inl last ↦
        let n_is : n ≡ 999999 = ground (arith, over, last) in
        rw (over, send_rounds-requests identity n, last, send_rounds)
          (ap (λ k. send_next (after identity k)) n_is ∙ send_next-long identity)
  ]
]

five : length (padded 4 (digits true 16 8 65536)) ≡ 5
unfolding digits
five = refl

print_into-long :
    (first second : Frame)
    → length first ≡ 5
    → print_into 10 (first ++ b'-' ∷ padded 4 second) ≡ none
unfolding print_into
print_into-long first second h =
    let zeros = length-replicate {A = ℕ} (4 - length second) b'0' in
    let tail = length-append (replicate (4 - length second) b'0') second in
    let over : ltb (length (first ++ b'-' ∷ padded 4 second)) 10 ≡ false =
      ground (arith, h, zeros, tail, length-append first (b'-' ∷ padded 4 second)) in
    rw over refl

-- A client whose first random number is 65536, which `CANNA_RAND(0x10000)` can give, overflows the
-- array of its name, whatever the second is.
pub start-long : (b : ℕ) → start 65536 b ≡ none
unfolding start set_id
start-long b =
    rw (print_into-long (padded 4 (digits true 16 8 65536)) (digits true 16 8 b) five, start) refl
