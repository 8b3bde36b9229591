-- ===== src/Socket/Served.antt =====
-- Requests are served in order and before events: a request is handled within as many rounds as
-- there are requests up to it.
use canna.Prelude.{◌≡◌, refl, ◌∙◌, true, List, [], ◌∷◌, Option, none, some, arith, length}
use canna.Socket.Types.{max_socket, Server, Sys, Event, Request, Report, closed, failed}
use canna.Socket.Send.{◌>>=◌, After}
use canna.Socket.Commands.{ctrl_cmd}
use canna.Socket.Events.{clear_closed_event}
use canna.Socket.Poll.{finish, control, round}
use canna.Socket.Same.{SameAt}
use canna.Socket.Local.{ctrl_cmd-Same}
use canna.Socket.Handled.{slot_of-ne}
use canna.Socket.Reach.{left_by}

-- Rounds one after the other, in one call of `poll` or in several.
unfoldable pub run_rounds : List (Sys × List Event) → Server → Option Server
run_rounds [] s = some s
run_rounds ((sys, waited) ∷ rest) s = round sys waited s >>= λ r. run_rounds rest (left_by r)

-- The requests handled in their order, each under the answers of one round.
unfoldable pub handle_all : List (Sys × List Event) → List Request → Server → Option Server
handle_all [] pipe s = some s
handle_all (answers ∷ rest) [] s = some s
handle_all ((sys, waited) ∷ rest) (r ∷ pipe) s =
    ctrl_cmd sys (record s { pipe = pipe }) r >>= λ q. handle_all rest pipe (left_by (finish q))

-- Handling a request takes just it from the pipe, and the pipe is looked at again.
abbrev HasPipe : List Request → Server → Type 0
HasPipe pipe s = (s.pipe ≡ pipe) × (s.checkctrl ≡ true)

finish-HasPipe :
    (pipe : List Request) (q : Server × Option Report)
    → HasPipe pipe q.0
    → HasPipe pipe (left_by (finish q))
unfolding finish clear_closed_event
finish-HasPipe pipe (s, none) h = h
finish-HasPipe pipe (s, some closed) h = h
finish-HasPipe pipe (s, some failed) h = h
finish-HasPipe pipe (s, some r) h = h

handled-HasPipe :
    (sys : Sys) (s : Server) (r : Request) (pipe : List Request)
    → s.checkctrl ≡ true
    → After (λ q. HasPipe pipe (left_by (finish q))) (ctrl_cmd sys (record s { pipe = pipe }) r)
handled-HasPipe sys s r pipe checks =
    kept (ctrl_cmd sys (record s { pipe = pipe }) r)
      (ctrl_cmd-Same sys (record s { pipe = pipe }) r max_socket (slot_of-ne r))
  where
    kept :
        (m : Option (Server × Option Report))
        → SameAt max_socket (record s { pipe = pipe }) m
        → After (λ q. HasPipe pipe (left_by (finish q))) m
    kept none h = tt
    kept (some q) h = finish-HasPipe pipe q (h.pipe, h.checkctrl ∙ checks)

round-request :
    (sys : Sys) (waited : List Event) (s : Server) (r : Request) (pipe : List Request)
    → HasPipe (r ∷ pipe) s
    → round sys waited s ≡ (ctrl_cmd sys (record s { pipe = pipe }) r >>= λ q. some (finish q))
unfolding round control
round-request sys waited s r pipe (e, checks) = ground arith

-- The rounds as the requests of the pipe see them.
run_rounds-from :
    (answers : List (Sys × List Event)) (pipe : List Request) (s : Server)
    → HasPipe pipe s
    → length answers ≡ length pipe
    → (run_rounds answers s ≡ handle_all answers pipe s) × After (HasPipe []) (run_rounds answers s)
unfolding run_rounds handle_all
run_rounds-from [] [] s h n = (refl, h)
run_rounds-from [] (r ∷ pipe) s h n = absurd (omega arith)
run_rounds-from (a ∷ answers) [] s h n = absurd (omega arith)
run_rounds-from ((sys, waited) ∷ answers) (r ∷ pipe) s h n =
    rw (round-request sys waited s r pipe h) (
      step (ctrl_cmd sys (record s { pipe = pipe }) r) (handled-HasPipe sys s r pipe h.1)
        (λ t k. run_rounds-from answers pipe t k (omega arith)))
  where
    step :
        (m : Option (Server × Option Report))
        → After (λ q. HasPipe pipe (left_by (finish q))) m
        → ((t : Server)
            → HasPipe pipe t
            → (run_rounds answers t ≡ handle_all answers pipe t)
              × After (HasPipe []) (run_rounds answers t))
        → (((m >>= λ q. some (finish q)) >>= λ r. run_rounds answers (left_by r))
            ≡ (m >>= λ q. handle_all answers pipe (left_by (finish q))))
          × After
              (HasPipe [])
              ((m >>= λ q. some (finish q)) >>= λ r. run_rounds answers (left_by r))
    step none k later = (refl, tt)
    step (some q) k later = later (left_by (finish q)) k

-- As many rounds as the pipe holds requests, on a server that looks at the pipe, do just what
-- handling the requests in their order does, whatever events wait: they abort only if a handler
-- does, and else the pipe is empty behind them.
pub run_rounds-handle_all :
    (answers : List (Sys × List Event)) (s : Server)
    → s.checkctrl ≡ true
    → length answers ≡ length s.pipe
    → (run_rounds answers s ≡ handle_all answers s.pipe s)
      × After (λ t. (t.pipe ≡ []) × (t.checkctrl ≡ true)) (run_rounds answers s)
run_rounds-handle_all answers s checks n = run_rounds-from answers s.pipe s (refl, checks) n
