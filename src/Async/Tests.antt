-- ===== src/Async/Tests.antt =====
-- The asynchronous client at concrete inputs.
use canna.Prelude.{◌≡◌, ◌^◌, refl, none, some, if◌then◌else◌, ltb}
use canna.Core.{digits, set_id}
use canna.Async.{print_into, AsyncClient, start, send_rounds}
use canna.Async.Requests.{after, send_rounds-requests, start-long}

abbrev name : AsyncClient
name = after (set_id 255 1) 0

start_test : start 255 1 ≡ some name
unfolding start print_into set_id digits
start_test = refl

start-long_test : start 65536 7 ≡ none
start-long_test = start-long 7

send_rounds-requests_test :
    send_rounds 1000000 name
    ≡ (if ltb 1000000 (10 ^ 6) then some (after (set_id 255 1) 1000000) else none)
send_rounds-requests_test = send_rounds-requests (set_id 255 1) 1000000
