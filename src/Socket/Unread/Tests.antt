-- ===== src/Socket/Unread/Tests.antt =====
-- Unread sockets, and the requests of a pipe, at a concrete server.
use canna.Prelude.{
  ℕ, ◌≡◌, ◌≢◌, refl, sym, true, false, [], ◌∷◌, none, some, arith, replicate, length,
}
use canna.Socket.Types.{invalid, Socket, Server, Sys, received, got, sent, null}
use canna.Socket.Slots.{reserve_id, reserve_loop}
use canna.Socket.Send.{After}
use canna.Socket.Poll.{poll, polled}
use canna.Socket.Api.{initialize, server_bind, server_close}
use canna.Socket.Reach.{Reach, fresh, next, binds, closes}
use canna.Socket.Served.{run_rounds, handle_all, run_rounds-handle_all}
use canna.Socket.Unread.Forever.{poll_unread}

abbrev zeroed : ℕ → Socket
zeroed _ = record {
  opaque = 0;
  high = [];
  low = [];
  wb_size = 0;
  fd = 0;
  id = 0;
  protocol = 0;
  type = invalid;
  size = 0;
}

-- Every read gives as many bytes as it asks for.
abbrev plenty : Sys
plenty = record {
  add_fails = false;
  accepts = none;
  accepted_from = null;
  so_error = false;
  peername_fails = false;
  peer = null;
  resolves = none;
  write_now = sent 1;
  writes = [];
  writes_low = [];
  reads = λ n. got (replicate n 65);
}

-- A bind and a close of the same socket wait in the pipe.
abbrev busy : Server
busy = server_close 3 1 (server_bind 3 5 (initialize zeroed)).0

abbrev reach_busy : Reach zeroed busy
reach_busy = next (next fresh (binds 3 5)) (closes 3 1)

poll_unread_example : poll ((plenty, []) ∷ (plenty, []) ∷ []) busy ≢ polled busy (some received)
poll_unread_example =
    poll_unread reach_busy ((tt, tt), tt) (λ k. refl) ((plenty, []) ∷ (plenty, []) ∷ []) busy
      ((λ bytes e. ground arith), tt, ((λ bytes e. ground arith), tt, tt))

busy_checks : busy.checkctrl ≡ true
unfolding server_close server_bind reserve_id reserve_loop initialize
busy_checks = refl

busy_pipe : length busy.pipe ≡ 2
unfolding server_close server_bind reserve_id reserve_loop initialize
busy_pipe = refl

run_rounds-handle_all_example :
    (run_rounds ((plenty, []) ∷ (plenty, []) ∷ []) busy
      ≡ handle_all ((plenty, []) ∷ (plenty, []) ∷ []) busy.pipe busy)
    × After
        (λ t. (t.pipe ≡ []) × (t.checkctrl ≡ true))
        (run_rounds ((plenty, []) ∷ (plenty, []) ∷ []) busy)
run_rounds-handle_all_example =
    run_rounds-handle_all ((plenty, []) ∷ (plenty, []) ∷ []) busy busy_checks (sym busy_pipe)
