-- ===== src/Socket/Wire/Tests.antt =====
-- The bytes of requests at concrete inputs.
use canna.Prelude.{ℕ, ◌≡◌, refl, List, [], ◌∷◌, ◌++◌, some, arith, replicate}
use canna.Socket.Wire.{
  package_bytes, read_request, read_requests, open_request, open_body, open_fields,
}
use canna.Socket.Wire.Trip.{
  requests_of, send_all, read_request-open_body, read_request-open_request, read_requests-send_all,
}

-- "a.b"
abbrev host : List ℕ
host = b'a' ∷ b'.' ∷ b'b' ∷ []

read_request-open_body_example :
    (open_request host ≡ some 3)
    × (read_request (package_bytes b'O' (open_body 65537 80 5 host (replicate 7 204)) ++ 88 ∷ [])
        ≡ some (b'O', open_body 65537 80 5 host (replicate 7 204), 88 ∷ []))
    × (open_fields (open_body 65537 80 5 host (replicate 7 204) ++ 1 ∷ 2 ∷ [])
        ≡ (65537, 80, 5, host))
read_request-open_body_example =
    read_request-open_body 65537 80 5 host (replicate 7 204) (1 ∷ 2 ∷ []) (88 ∷ []) (omega arith)
      (omega arith) (omega arith)
      ((λ e. omega (arith, e)), ((λ e. omega (arith, e)), ((λ e. omega (arith, e)), tt))) refl
      (omega arith)

read_request-open_request_test :
    (open_request (replicate 232 b'a') ≡ some 232)
    × (read_request
          (package_bytes b'O' (open_body 1 80 5 (replicate 232 b'a') (replicate 7 204)) ++ [])
        ≡ some (b'O', [], open_body 1 80 5 (replicate 232 b'a') (replicate 7 204) ++ []))
read_request-open_request_test =
    read_request-open_request 1 80 5 (replicate 232 b'a') (replicate 7 204) [] refl refl

-- An exit request behind a close request, the first written at the third try.
abbrev calls : List (ℕ × ℕ × List ℕ)
calls = (2, b'K', replicate 16 7) ∷ (0, b'X', []) ∷ []

read_requests-send_all_example :
    (pipe : List ℕ) × (send_all calls [] ≡ some pipe)
    × (read_requests 2 pipe ≡ some (requests_of calls, []))
read_requests-send_all_example =
    read_requests-send_all calls ((omega arith, omega arith), ((omega arith, omega arith), tt))
