-- ===== src/Socket/Unread/Forever.antt =====
-- No client is ever handed data: `poll` over everything that a server can reach.
use canna.Prelude.{ℕ, ◌≡◌, ◌≢◌, List, [], ◌∷◌, Option, none, some, arith, subst}
use canna.Socket.Types.{
  Socket, Server, Sys, Event, Request, received, bind, listening, connect, close_fd, call,
}
use canna.Socket.Slots.{reserve_id}
use canna.Socket.Send.{After}
use canna.Socket.Poll.{Round, again, returns, idle, round, poll, polled, aborted}
use canna.Socket.Api.{
  initialize, send_reserved, reserve_and_send, server_listen, server_bind, server_connect,
  server_start, server_close, server_send, server_exit,
}
use canna.Socket.Invariant.{IsValid, Inside}
use canna.Socket.Handled.{ValidRound}
use canna.Socket.Rounds.{round-Valid}
use canna.Socket.Reach.{
  Step, polls, listens, binds, connects, starts, closes, sends, exits, Reach, fresh, next, left_by,
  Reach-IsValid, connected_by,
}
use canna.Socket.Unread.{IsHonest, reserve_id-IsUnread}
use canna.Socket.Unread.Rounds.{AllUnread, QuietRound, round-Quiet}

-- `read` stored no byte where none was asked for, in every round so far.
abbrev pub IsHonestStep : {s t : Server} → Step s t → Type 0
IsHonestStep (polls sys waited r new h) = IsHonest sys
IsHonestStep st = Unit

abbrev pub AllHonest : {memory : ℕ → Socket} {s : Server} → Reach memory s → Type 0
AllHonest fresh = Unit
AllHonest (next r st) = AllHonest r × IsHonestStep st

left_by-AllUnread : (r : Round) → QuietRound r → AllUnread (left_by r)
left_by-AllUnread (again s) v = v
left_by-AllUnread (returns s r) v = v.0
left_by-AllUnread (idle s) v = v

reserve_and_send-AllUnread :
    (request : ℕ → Request) (give_up : Server → Server) (s : Server)
    → ((t : Server) → AllUnread t → AllUnread (give_up t))
    → IsValid s
    → AllUnread s
    → AllUnread (reserve_and_send request give_up s).0
reserve_and_send-AllUnread request give_up s keep valid v =
    sent (reserve_id s).0 (reserve_id s).1 (λ j. reserve_id-IsUnread s j valid.ids (v j))
  where
    sent :
        (t : Server) (id : Option ℕ)
        → AllUnread t
        → AllUnread (send_reserved request give_up t id).0
    sent t none w = keep t w
    sent t (some id) w = w

Step-AllUnread :
    {s t : Server} (st : Step s t) → IsHonestStep st → IsValid s → AllUnread s → AllUnread t
unfolding server_listen server_bind server_connect server_start server_close server_send server_exit
Step-AllUnread {s} (polls sys waited r new h) honest valid v =
    left_by-AllUnread r (subst (After QuietRound) h (round-Quiet sys honest waited s new valid v))
Step-AllUnread {s} (listens none opaque) honest valid v = v
Step-AllUnread {s} (listens (some fd) opaque) honest valid v =
    reserve_and_send-AllUnread (λ id. listening id fd opaque) (call (close_fd fd)) s (λ t w. w)
      valid v
Step-AllUnread {s} (binds opaque fd) honest valid v =
    reserve_and_send-AllUnread (λ id. bind id fd opaque) (λ t. t) s (λ t w. w) valid v
Step-AllUnread {s} (connects opaque addr port made) honest valid v =
    connected_by AllUnread opaque addr port s made v
      (reserve_and_send-AllUnread (λ id. connect id port opaque addr) (λ t. t) s (λ t w. w) valid v)
Step-AllUnread {s} (starts opaque id) honest valid v = v
Step-AllUnread {s} (closes opaque id) honest valid v = v
Step-AllUnread {s} (sends id buffer) honest valid v = λ j. ground (arith, v j)
Step-AllUnread {s} exits honest valid v = v

Reach-AllUnread :
    {memory : ℕ → Socket} {s : Server} (r : Reach memory s)
    → AllHonest r
    → ((k : ℕ) → (memory k).size ≡ 0)
    → AllUnread s
unfolding initialize
Reach-AllUnread fresh honest zeroed = λ j. ground (arith, zeroed j)
Reach-AllUnread (next r st) honest zeroed =
    Step-AllUnread st honest.1 (Reach-IsValid r) (Reach-AllUnread r honest.0 zeroed)

-- The system's answers in the rounds of one call of `poll`.
abbrev pub AllowedRounds : List (Sys × List Event) → Type 0
AllowedRounds [] = Unit
AllowedRounds ((sys, waited) ∷ rounds) = IsHonest sys × Inside waited × AllowedRounds rounds

poll_quiet :
    (rounds : List (Sys × List Event)) (s t : Server)
    → AllowedRounds rounds
    → IsValid s
    → AllUnread s
    → poll rounds s ≢ polled t (some received)
unfolding poll
poll_quiet [] s t allowed valid v = λ e. cc
poll_quiet ((sys, waited) ∷ rounds) s t (honest, inside, allowed) valid v =
    one_round (round sys waited s) (round-Valid sys waited s inside valid)
      (round-Quiet sys honest waited s inside valid v) (λ u w x. poll_quiet rounds u t allowed w x)
  where
    one_round :
        (m : Option Round)
        → After ValidRound m
        → After QuietRound m
        → ((u : Server) → IsValid u → AllUnread u → poll rounds u ≢ polled t (some received))
        → (elim m [
          | none ↦ aborted
          | some (again u) ↦ poll rounds u
          | some (returns u r) ↦ polled u (some r)
          | some (idle u) ↦ polled u none
        ])
          ≢ polled t (some received)
    one_round none a b later = λ e. cc
    one_round (some (again u)) a b later = later u a b
    one_round (some (returns u r)) a b later = λ e. b.1 (cc)
    one_round (some (idle u)) a b later = λ e. cc

-- Where the memory of the server starts zeroed, as that of a static object, and `read` stores
-- nothing where 0 bytes are asked for, and no client connects to an address of 232 bytes, no call of `poll` on a server in any state that it reaches
-- returns SOCKET_DATA, whatever else the system answers.
pub poll_unread :
    {memory : ℕ → Socket} {s : Server} (r : Reach memory s)
    → AllHonest r
    → ((k : ℕ) → (memory k).size ≡ 0)
    → (rounds : List (Sys × List Event)) (t : Server) → AllowedRounds rounds
    → poll rounds s ≢ polled t (some received)
poll_unread r honest zeroed rounds t allowed =
    poll_quiet rounds _ t allowed (Reach-IsValid r) (Reach-AllUnread r honest zeroed)
