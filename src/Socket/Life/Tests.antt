-- ===== src/Socket/Life/Tests.antt =====
-- The life of a socket at a concrete server.
use canna.Prelude.{ℕ, ◌≡◌, refl, true, false, [], ◌∷◌, Option, none, some, arith}
use canna.Socket.Types.{invalid, bound, Socket, Server, Sys, Report, sent, read_eagain, null, bind}
use canna.Socket.Slots.{reserve_loop, reserve_id, new_socket}
use canna.Socket.Commands.{ctrl_cmd, bind_socket}
use canna.Socket.Events.{clear_closed_event}
use canna.Socket.Poll.{Round, idle, round, control, finish}
use canna.Socket.Api.{initialize, server_bind}
use canna.Socket.Reach.{Reach, fresh, next, polls, binds, left_by}
use canna.Socket.Life.{lives, opening, Waits}
use canna.Socket.Life.Steps.{Reach-Waits, Step-lives}
use canna.Socket.Life.Opens.{ctrl_cmd-brings_fd}

abbrev memory : ℕ → Socket
memory _ = record {
  opaque = 0;
  high = [];
  low = [];
  wb_size = 0;
  fd = 0;
  id = 0;
  protocol = 0;
  type = invalid;
  size = 0;
}

abbrev quiet : Sys
quiet = record {
  add_fails = false;
  accepts = none;
  accepted_from = null;
  so_error = false;
  peername_fails = false;
  peer = null;
  resolves = none;
  write_now = sent 1;
  writes = [];
  writes_low = [];
  reads = λ _. read_eagain;
}

-- A client has bound the descriptor 5, and its request waits.
abbrev asked : Server
asked = (server_bind 3 5 (initialize memory)).0

reach_asked : Reach memory asked
reach_asked = next fresh (binds 3 5)

asked_pipe : asked.pipe ≡ bind 1 5 3 ∷ []
unfolding server_bind reserve_id reserve_loop initialize
asked_pipe = refl

asked_waits : opening 1 asked.pipe ≡ 1
unfolding server_bind reserve_id reserve_loop initialize
asked_waits = refl

Reach-Waits_test : Waits asked
Reach-Waits_test = Reach-Waits reach_asked

ctrl_cmd-brings_fd_example :
    (q : Server × Option Report) × (ctrl_cmd quiet (record asked { pipe = [] }) (bind 1 5 3)
      ≡ some q)
ctrl_cmd-brings_fd_example = ctrl_cmd-brings_fd reach_asked quiet (bind 1 5 3) [] asked_pipe refl

abbrev the_round : Option Round → Round
the_round none = idle asked
the_round (some r) = r

asked_round : round quiet [] asked ≡ some (the_round (round quiet [] asked))
unfolding round control ctrl_cmd bind_socket new_socket finish clear_closed_event server_bind
    reserve_id reserve_loop initialize
asked_round = refl

Step-lives_example :
    lives (asked.slots 1) ((left_by (the_round (round quiet [] asked))).slots 1) ≡ true
Step-lives_example =
    Step-lives reach_asked (polls quiet [] (the_round (round quiet [] asked)) tt asked_round) 1
      (omega arith)

now_bound : ((left_by (the_round (round quiet [] asked))).slots 1).type ≡ bound
unfolding round control ctrl_cmd bind_socket new_socket finish clear_closed_event server_bind
    reserve_id reserve_loop initialize
now_bound = refl
