-- ===== src/Socket/Tests.antt =====
-- The socket server at concrete inputs.
use canna.Prelude.{
  ℕ, ◌+◌, ◌<◌, ◌≡◌, refl, inl, inr, true, false, [], ◌∷◌, Option, none, some, arith, ◌^◌,
  Option-cases, some_inj,
}
use canna.Socket.Types.{
  invalid, reserve, connected, bound, is, max_socket, Socket, Server, Sys, closed, close, send,
  sent, read_eagain, epoll_add, epoll_write, epoll_del, close_fd, wire, null, put, set_nonblocking,
}
use canna.Socket.Slots.{reserve_loop, reserve_id, new_socket}
use canna.Socket.Send.{send_buffer, After}
use canna.Socket.Commands.{ctrl_cmd, close_socket, bind_socket, send_socket, send_now}
use canna.Socket.Events.{clear_closed_event}
use canna.Socket.Poll.{Round, idle, round, control, finish}
use canna.Socket.Api.{initialize, server_bind, server_close}
use canna.Socket.Reserve.{reserved, reserve_id_found, reserve_id_refuses}
use canna.Socket.Tidy.{IsTidy}
use canna.Socket.Same.{SameAt}
use canna.Socket.Local.{ctrl_cmd-Same, ctrl_cmd-stale}
use canna.Socket.Closing.{
  closed_server, close_socket_completes, close_socket_reserved, CloseRound, round-CloseRound,
}
use canna.Socket.Invariant.{IsValid}
use canna.Socket.Handled.{ValidRound}
use canna.Socket.Silent.{wired, send_buffer_silent}
use canna.Socket.Rounds.{round-Valid}
use canna.Socket.Reach.{Reach, fresh, next, polls, binds, closes, left_by, Reach-IsValid}

abbrev blank : Socket
blank = record {
  opaque = 0;
  high = [];
  low = [];
  wb_size = 0;
  fd = 0;
  id = 0;
  protocol = 0;
  type = invalid;
  size = 0;
}

abbrev memory : ℕ → Socket
memory _ = blank

-- A system that has nothing to give, and takes one byte of each write.
abbrev quiet : Sys
quiet = record {
  add_fails = false;
  accepts = none;
  accepted_from = null;
  so_error = false;
  peername_fails = false;
  peer = null;
  resolves = none;
  write_now = sent 1;
  writes = [];
  writes_low = [];
  reads = λ _. read_eagain;
}

-- The slot 1 holds the connected socket 1 on the descriptor 7.
abbrev on_seven : Socket
on_seven = record blank { id = 1; fd = 7; opaque = 4; type = connected }

abbrev online : Server
online = put (initialize memory) 1 on_seven

-- The slot 1 is reserved, and its request not yet handled.
abbrev waiting : Server
waiting = put (initialize memory) 1 (record blank { id = 1; type = reserve })

-- A buffer waits in the high list of the socket.
abbrev queued : Socket
queued = record on_seven { high = record { block = 9 ∷ []; ptr = 0; sz = 1 } ∷ []; wb_size = 1 }

-- All slots are in use.
abbrev crowded : Server
crowded = record (initialize memory) { slots = λ k. record on_seven { id = k } }

first_id : (reserve_id (initialize memory)).1 ≡ some 1
unfolding reserve_id reserve_loop initialize
first_id = refl

reserve_id_found_example :
    (is ((initialize memory).slots 1).type invalid ≡ true)
    × (1 < 2 ^ 31)
    × ((reserve_id (initialize memory)).0 ≡ reserved (initialize memory) 1)
reserve_id_found_example = reserve_id_found (initialize memory) 1 first_id

crowded_refuses : (reserve_id crowded).1 ≡ none
crowded_refuses = elim (Option-cases (reserve_id crowded).1) [
  | inl e ↦ e
  | inr (id, e) ↦ absurd (let f = (reserve_id_found crowded id e).0 in cc)
]

reserve_id_refuses_example : is (crowded.slots 77).type invalid ≡ false
reserve_id_refuses_example =
    reserve_id_refuses crowded 77 (unfold initialize in omega arith) (omega arith) crowded_refuses

ctrl_cmd-Same_example : SameAt 2 online (ctrl_cmd quiet online (close 1 4))
ctrl_cmd-Same_example =
    ctrl_cmd-Same quiet online (close 1 4) 2 (λ e. absurd (omega (arith, some_inj e)))

ctrl_cmd-stale_test :
    After
      (λ q. (q.0.slots ≡ online.slots) × (q.0.calls ≡ online.calls))
      (ctrl_cmd quiet online (send (1 + max_socket) (9 ∷ [])))
ctrl_cmd-stale_test =
    ctrl_cmd-stale quiet online (send (1 + max_socket) (9 ∷ [])) (1 + max_socket) refl refl

-- Of two bytes the system takes one: the other is lost, and epoll is asked for writable events.
send_takes_one :
    ctrl_cmd quiet online (send 1 (9 ∷ 8 ∷ []))
    ≡ some (record online { calls = epoll_write 7 1 true ∷ wire 7 (9 ∷ []) ∷ [] }, none)
unfolding ctrl_cmd send_socket send_now initialize
send_takes_one = refl

on_seven-IsTidy : IsTidy 1 on_seven
on_seven-IsTidy = record { high_empty = refl; low_empty = refl; home = inr refl; not_half = refl }

waiting-IsTidy : IsTidy 1 (waiting.slots 1)
waiting-IsTidy = record { high_empty = refl; low_empty = refl; home = inr refl; not_half = refl }

close_socket_completes_test :
    close_socket quiet online 1 4 ≡ some (closed_server online 1 4, some closed)
close_socket_completes_test = close_socket_completes quiet online 1 4 on_seven-IsTidy refl refl

closing_calls_made : (closed_server online 1 4).calls ≡ close_fd 7 ∷ epoll_del 7 ∷ []
unfolding initialize
closing_calls_made = refl

close_socket_reserved_test : close_socket quiet waiting 1 4 ≡ none
close_socket_reserved_test = close_socket_reserved quiet waiting 1 4 waiting-IsTidy refl refl

send_buffer_silent_test :
    After (λ q. wired q.0.calls ≡ []) (send_buffer (sent 1 ∷ []) [] (put online 1 queued) 1)
unfolding initialize
send_buffer_silent_test = send_buffer_silent (sent 1 ∷ []) [] (put online 1 queued) 1 refl

-- The server after a bind of the descriptor 5, and the round that handles it.
abbrev asked : Server
asked = (server_bind 3 5 (initialize memory)).0

asked-IsValid : IsValid asked
asked-IsValid = Reach-IsValid {memory = memory} (next fresh (binds 3 5))

round-Valid_test : After ValidRound (round quiet [] asked)
round-Valid_test = round-Valid quiet [] asked tt asked-IsValid

abbrev the_round : Option Round → Round
the_round none = idle asked
the_round (some r) = r

-- The round that handles the bind does not abort.
asked-round : round quiet [] asked ≡ some (the_round (round quiet [] asked))
unfolding round control ctrl_cmd bind_socket new_socket finish clear_closed_event server_bind
    reserve_id reserve_loop initialize
asked-round = refl

abbrev bound_server : Server
bound_server = left_by (the_round (round quiet [] asked))

bound_slot :
    (bound_server.slots 1 ≡ record blank { id = 1; fd = 5; opaque = 3; type = bound })
    × (bound_server.calls ≡ set_nonblocking 5 ∷ epoll_add 5 1 ∷ [])
unfolding round control ctrl_cmd bind_socket new_socket finish clear_closed_event server_bind
    reserve_id reserve_loop initialize
bound_slot = (refl, refl)

reach_bound : Reach memory bound_server
reach_bound =
    next (next fresh (binds 3 5)) (polls quiet [] (the_round (round quiet [] asked)) tt asked-round)

Reach-IsValid_example : IsValid bound_server
Reach-IsValid_example = Reach-IsValid {memory = memory} reach_bound

-- The client then closes the socket.
abbrev leaving : Server
leaving = server_close 3 1 bound_server

leaving_pipe : (leaving.checkctrl ≡ true) × (leaving.pipe ≡ close 1 3 ∷ [])
unfolding round control ctrl_cmd bind_socket new_socket finish clear_closed_event server_bind
    server_close reserve_id reserve_loop initialize
leaving_pipe = (refl, refl)

round-CloseRound_example : CloseRound leaving 1 3 [] (round quiet [] leaving)
round-CloseRound_example =
    round-CloseRound {memory = memory} quiet [] 1 3 [] (next reach_bound (closes 3 1))
      leaving_pipe.0 leaving_pipe.1
