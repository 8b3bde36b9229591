-- ===== src/Socket/Rounds.antt =====
-- Every round of `poll` keeps the invariant of the server.
use canna.Prelude.{
  ℕ, zero, suc, refl, inl, inr, true, false, List, [], ◌∷◌, Option, some, Bool-cases, take,
  if◌then◌else◌, sym, subst,
}
use canna.Socket.Types.{max_event, Server, Sys, Event, Report, Request}
use canna.Socket.Send.{After, After-bind}
use canna.Socket.Commands.{ctrl_cmd}
use canna.Socket.Poll.{finish, control, events, next_event, round}
use canna.Socket.Invariant.{IsValid, Inside}
use canna.Socket.Handled.{ValidRound, ctrl_cmd-IsValid, finish-Valid, at_slot-Valid}

next_event-Valid :
    (sys : Sys) (es : List Event) (s : Server)
    → Inside es
    → IsValid s
    → After ValidRound (next_event sys es s)
unfolding next_event
next_event-Valid sys [] s inside v = v
next_event-Valid sys (e ∷ rest) s inside v =
    at_slot-Valid sys (record s { pending = rest }) e e.slot refl inside.0
      (record { tidy = v.tidy; ids = v.ids; events = inside.1 })

pub take-Inside : (n : ℕ) (es : List Event) → Inside es → Inside (take n es)
take-Inside zero es v = tt
take-Inside (suc n) [] v = tt
take-Inside (suc n) (e ∷ es) v = (v.0, take-Inside n es v.1)

events-Valid :
    (sys : Sys) (waited es : List Event) (s : Server)
    → Inside waited
    → Inside es
    → IsValid s
    → After ValidRound (events sys waited es s)
unfolding events
events-Valid sys waited [] s new old v =
    next_event-Valid sys (take max_event waited)
      (record s { pending = take max_event waited; checkctrl = true })
      (take-Inside max_event waited new)
      (record { tidy = v.tidy; ids = v.ids; events = take-Inside max_event waited new })
events-Valid sys waited (e ∷ rest) s new old v = next_event-Valid sys (e ∷ rest) s old v

control-Valid :
    (sys : Sys) (waited : List Event) (pipe : List Request) (s : Server)
    → Inside waited
    → IsValid s
    → After ValidRound (control sys waited pipe s)
unfolding control
control-Valid sys waited [] s new v =
    events-Valid sys waited s.pending (record s { checkctrl = false }) new v.events
      (record { tidy = v.tidy; ids = v.ids; events = v.events })
control-Valid sys waited (r ∷ rest) s new v =
    After-bind (λ (q : Server × Option Report). IsValid q.0) ValidRound
      (ctrl_cmd sys (record s { pipe = rest }) r) (λ h. some (finish h))
      (ctrl_cmd-IsValid sys (record s { pipe = rest }) r
        (record { tidy = v.tidy; ids = v.ids; events = v.events }))
      (λ q h. finish-Valid q h)

-- A round of `poll` that does not abort keeps the invariant, whatever the system answers and
-- whichever slots epoll reports.
pub round-Valid :
    (sys : Sys) (waited : List Event) (s : Server)
    → Inside waited
    → IsValid s
    → After ValidRound (round sys waited s)
unfolding round
round-Valid sys waited s new v = elim (Bool-cases s.checkctrl) [
  | inl first ↦
      subst
        (λ c.
          After ValidRound
            (if c then control sys waited s.pipe s else events sys waited s.pending s))
        (sym first) (control-Valid sys waited s.pipe s new v)
  | inr later ↦
      subst
        (λ c.
          After ValidRound
            (if c then control sys waited s.pipe s else events sys waited s.pending s))
        (sym later) (events-Valid sys waited s.pending s new v.events v)
]
