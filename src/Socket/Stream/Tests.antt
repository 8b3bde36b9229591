-- ===== src/Socket/Stream/Tests.antt =====
-- Requests to send at concrete inputs.
use canna.Prelude.{ℕ, ◌≡◌, refl, false, List, [], ◌∷◌, ◌++◌, some, none, if◌then◌else◌, ◌==◌}
use canna.Socket.Types.{
  connected, invalid, Socket, Server, Sys, sent, read_eagain, null, put, write_eagain, WriteResult,
}
use canna.Socket.Api.{initialize}
use canna.Socket.Served.{run_rounds}
use canna.Socket.Stream.{
  IsOnline, Sending, answers_of, requests_of, taken_all, stream, run_rounds-stream,
}

abbrev blank : Socket
blank = record {
  opaque = 0;
  high = [];
  low = [];
  wb_size = 0;
  fd = 0;
  id = 0;
  protocol = 0;
  type = invalid;
  size = 0;
}

abbrev memory : ℕ → Socket
memory _ = blank

-- Of the first buffer the system takes two bytes of three, of the second nothing, of the third all.
abbrev three_sends : List Sending
three_sends =
    record { sys = takes (sent 2); waited = []; buffer = 9 ∷ 8 ∷ 7 ∷ [] }
    ∷ record { sys = takes write_eagain; waited = []; buffer = 6 ∷ [] }
    ∷ record { sys = takes (sent 2); waited = []; buffer = 5 ∷ 4 ∷ [] }
    ∷ []
  where
    takes : WriteResult → Sys
    takes w = record {
      add_fails = false;
      accepts = none;
      accepted_from = null;
      so_error = false;
      peername_fails = false;
      peer = null;
      resolves = none;
      write_now = w;
      writes = [];
      writes_low = [];
      reads = λ _. read_eagain;
    }

-- The slot 1 holds the connected socket 1 on the descriptor 7, and three requests wait.
abbrev online : Server
online = record (put (initialize memory) 1 (record blank { id = 1; fd = 7; type = connected })) {
  pipe = requests_of 1 three_sends;
}

online-IsOnline : IsOnline 1 7 online
unfolding initialize
online-IsOnline = record {
  live = refl;
  named = refl;
  tcp = refl;
  high_empty = refl;
  low_empty = refl;
  descriptor = refl;
}

taken_all_three : taken_all three_sends ≡ 9 ∷ 8 ∷ 5 ∷ 4 ∷ []
taken_all_three = refl

run_rounds-stream_example :
    (t : Server) × (run_rounds (answers_of three_sends) online ≡ some t)
    × (t.slots ≡ online.slots)
    × (t.pipe ≡ [])
    × ((d : ℕ)
        → stream d t.calls ≡ stream d online.calls ++ (if 7 == d then 9 ∷ 8 ∷ 5 ∷ 4 ∷ [] else []))
unfolding initialize
run_rounds-stream_example =
    run_rounds-stream 1 7 three_sends online online-IsOnline refl refl
      ((2, refl), ((0, refl), ((2, refl), tt)))
