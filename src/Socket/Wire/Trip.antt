-- ===== src/Socket/Wire/Trip.antt =====
-- Requests come out of the pipe as they were written.
use canna.Prelude.{
  ℕ, zero, suc, ◌+◌, ◌/◌, ◌%◌, ◌^◌, ◌<◌, ◌≤◌, ◌≡◌, ◌≢◌, refl, sym, ap, ap₂, ◌∙◌, inl, inr, false,
  List, [], ◌∷◌, ◌++◌, Option, none, some, arith, ltb, ◌==◌, ==_iff, length, append_assoc,
  append-nil, Bool-cases, length-append, ==_self, replicate,
}
use canna.Socket.Wire.{
  le_bytes, of_le, package_bytes, send_request, block_read_pipe, read_request, read_requests,
  open_request, open_body, host_of, open_fields,
}

block_read_pipe-append :
    (body rest : List ℕ) → block_read_pipe (length body) (body ++ rest) ≡ some (body, rest)
unfolding block_read_pipe
block_read_pipe-append [] rest = refl
block_read_pipe-append (b ∷ body) rest = rw (block_read_pipe-append body rest) refl

-- A type and a body of fewer than 256 bytes.
abbrev pub Fits : ℕ × List ℕ → Type 0
Fits (type, body) = (type < 256) × (length body < 256)

abbrev pub AllFit : List (ℕ × List ℕ) → Type 0
AllFit [] = Unit
AllFit (r ∷ rest) = Fits r × AllFit rest

read_request-block_read_pipe :
    (type len : ℕ) (pipe body left : List ℕ)
    → block_read_pipe len pipe ≡ some (body, left)
    → read_request (type ∷ len ∷ pipe) ≡ some (type, body, left)
unfolding read_request
read_request-block_read_pipe type len pipe body left e = rw (read_request, e) refl

read_request-package_bytes :
    (type : ℕ) (body rest : List ℕ)
    → Fits (type, body)
    → read_request (package_bytes type body ++ rest) ≡ some (type, body, rest)
unfolding package_bytes
read_request-package_bytes type body rest (small, short) =
    let a : type % 256 ≡ type = omega (arith, small) in
    let b : length body % 256 ≡ length body = omega (arith, short) in
    ap₂ (λ t n. read_request (t ∷ n ∷ (body ++ rest))) a b
    ∙ read_request-block_read_pipe type (length body) (body ++ rest) body rest
        (block_read_pipe-append body rest)

-- All the requests, one after the other.
abbrev pub written : List (ℕ × List ℕ) → List ℕ
written [] = []
written ((type, body) ∷ rest) = package_bytes type body ++ written rest

read_requests-written :
    (requests : List (ℕ × List ℕ)) (rest : List ℕ)
    → AllFit requests
    → read_requests (length requests) (written requests ++ rest) ≡ some (requests, rest)
unfolding read_requests
read_requests-written [] rest fits = refl
read_requests-written ((type, body) ∷ requests) rest (fits, later) =
    rw
      (
        append_assoc (package_bytes type body) (written requests) rest,
        read_requests,
        read_request-package_bytes type body (written requests ++ rest) fits,
        read_requests-written requests rest later,
      )
      refl

of_le-le_bytes_int : (x : ℕ) → x < 2 ^ 32 → of_le (le_bytes 4 x) ≡ x
of_le-le_bytes_int x h = omega (arith, h)

of_le-le_bytes_long : (x : ℕ) → x < 2 ^ 64 → of_le (le_bytes 8 x) ≡ x
of_le-le_bytes_long x h = omega (arith, h)

-- The bytes of an address, up to the 0 that ends it.
abbrev pub NoZero : List ℕ → Type 0
NoZero [] = Unit
NoZero (b ∷ bytes) = (b ≢ 0) × NoZero bytes

host_of-NoZero : (addr rest : List ℕ) → NoZero addr → host_of (addr ++ 0 ∷ rest) ≡ addr
host_of-NoZero [] rest h = refl
host_of-NoZero (b ∷ addr) rest (h, later) = elim (Bool-cases (b == 0)) [
  | inl e ↦ let (to, from) = ==_iff b 0 in absurd (h (to e))
  | inr e ↦ rw (host_of, e, host_of-NoZero addr rest later) refl
]

open_fields-open_body :
    (id port opaque : ℕ) (addr padding : List ℕ)
    → id < 2 ^ 32
    → port < 2 ^ 32
    → opaque < 2 ^ 64
    → NoZero addr
    → open_fields (open_body id port opaque addr padding) ≡ (id, port, opaque, addr)
unfolding open_fields open_body
open_fields-open_body id port opaque addr padding a b c h =
    rw
      (
        of_le-le_bytes_int id a,
        of_le-le_bytes_int port b,
        of_le-le_bytes_long opaque c,
        host_of-NoZero addr padding h,
      )
      refl

length-le_bytes : (n x : ℕ) → length (le_bytes n x) ≡ n
length-le_bytes zero x = refl
length-le_bytes (suc n) x = ap suc (length-le_bytes n (x / 256))

length-open_body :
    (id port opaque : ℕ) (addr padding : List ℕ)
    → length padding ≡ 7
    → length (open_body id port opaque addr padding) ≡ length addr + 24
unfolding open_body
length-open_body id port opaque addr padding h =
    let tail = length-append addr (0 ∷ padding) in omega (arith, h, tail)

open_body-append :
    (id port opaque : ℕ) (addr padding stale : List ℕ)
    → open_body id port opaque addr padding ++ stale
      ≡ open_body id port opaque addr (padding ++ stale)
unfolding open_body
open_body-append id port opaque addr padding stale =
    ap (λ l. le_bytes 4 id ++ le_bytes 4 port ++ le_bytes 8 opaque ++ l)
      (append_assoc addr (0 ∷ padding) stale)

-- An open request for an address of at most 231 bytes, none of them 0, comes out of the pipe as
-- it was written: `ctrl_cmd` finds its type and all its bytes, the fields it reads from its
-- buffer, whatever that holds behind these bytes, are those that were written, and what stands
-- behind the request in the pipe is left.
pub read_request-open_body :
    (id port opaque : ℕ) (addr padding stale rest : List ℕ)
    → id < 2 ^ 32
    → port < 2 ^ 32
    → opaque < 2 ^ 64
    → NoZero addr
    → length padding ≡ 7
    → length addr ≤ 231
    → let body = open_body id port opaque addr padding in
      (open_request addr ≡ some (length addr))
      × (read_request (package_bytes b'O' body ++ rest) ≡ some (b'O', body, rest))
      × (open_fields (body ++ stale) ≡ (id, port, opaque, addr))
unfolding open_request
read_request-open_body id port opaque addr padding stale rest a b c h seven short =
    let body = open_body id port opaque addr padding in
    let size = length-open_body id port opaque addr padding seven in
    let ok : ltb 256 (length addr + 24) ≡ false = ground (arith, short) in
    (
      rw ok refl,
      read_request-package_bytes b'O' body rest (omega arith, omega (arith, size, short)),
      ap open_fields (open_body-append id port opaque addr padding stale)
          ∙ open_fields-open_body id port opaque addr (padding ++ stale) a b c h,
    )

-- An open request for an address of 232 bytes passes the test of `open_request`, but `ctrl_cmd`
-- finds a request without bytes, and its bytes are left to be read as the requests behind it.
pub read_request-open_request :
    (id port opaque : ℕ) (addr padding rest : List ℕ)
    → length padding ≡ 7
    → length addr ≡ 232
    → let body = open_body id port opaque addr padding in
      (open_request addr ≡ some 232)
      × (read_request (package_bytes b'O' body ++ rest) ≡ some (b'O', [], body ++ rest))
unfolding open_request package_bytes
read_request-open_request id port opaque addr padding rest seven long =
    let body = open_body id port opaque addr padding in
    let size = length-open_body id port opaque addr padding seven in
    let ok : ltb 256 (length addr + 24) ≡ false = ground (arith, long) in
    let none_ : length body % 256 ≡ 0 = omega (arith, size, long) in
    (
      rw ok (ap some long),
      ap (λ n. read_request (b'O' ∷ n ∷ (body ++ rest))) none_
          ∙ read_request-block_read_pipe b'O' 0 (body ++ rest) [] (body ++ rest)
              (unfold block_read_pipe in refl),
    )

-- `send_request` writes its request once, however often `write` fails before.
send_request-package_bytes :
    (failures type : ℕ) (body pipe : List ℕ) (answers : List (Option ℕ))
    → send_request (replicate failures none ++ some (length body + 2) ∷ answers) type body pipe
      ≡ some (pipe ++ package_bytes type body)
unfolding send_request
send_request-package_bytes zero type body pipe answers = rw (==_self (length body + 2)) refl
send_request-package_bytes (suc failures) type body pipe answers =
    send_request-package_bytes failures type body pipe answers

-- The pipe after a sequence of calls of `send_request`, each with the number of times that `write`
-- fails before it takes the whole request.
abbrev pub send_all : List (ℕ × ℕ × List ℕ) → List ℕ → Option (List ℕ)
send_all [] pipe = some pipe
send_all ((failures, type, body) ∷ calls) pipe =
    elim (send_request (replicate failures none ++ some (length body + 2) ∷ []) type body pipe) [
      | none ↦ none
      | some pipe' ↦ send_all calls pipe'
    ]

abbrev pub requests_of : List (ℕ × ℕ × List ℕ) → List (ℕ × List ℕ)
requests_of [] = []
requests_of ((failures, type, body) ∷ calls) = (type, body) ∷ requests_of calls

send_all-written :
    (calls : List (ℕ × ℕ × List ℕ)) (pipe : List ℕ)
    → send_all calls pipe ≡ some (pipe ++ written (requests_of calls))
send_all-written [] pipe = ap some (sym (append-nil pipe))
send_all-written ((failures, type, body) ∷ calls) pipe =
    rw (send_all, send_request-package_bytes failures type body pipe [])
      (send_all-written calls (pipe ++ package_bytes type body)
        ∙ ap some (append_assoc pipe (package_bytes type body) (written (requests_of calls))))

-- Any requests of fewer than 256 bytes each, sent one after the other into an empty pipe, however
-- often `write` fails before it takes one, are read back one after the other, with nothing left.
pub read_requests-send_all :
    (calls : List (ℕ × ℕ × List ℕ))
    → AllFit (requests_of calls)
    → (pipe : List ℕ) × (send_all calls [] ≡ some pipe)
      × (read_requests (length (requests_of calls)) pipe ≡ some (requests_of calls, []))
read_requests-send_all calls fits =
    let requests = requests_of calls in
    (
      written requests,
      send_all-written calls [],
      ap (read_requests (length requests)) (sym (append-nil (written requests)))
          ∙ read_requests-written requests [] fits,
    )
