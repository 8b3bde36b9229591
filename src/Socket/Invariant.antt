-- ===== src/Socket/Invariant.antt =====
-- The invariant of the whole server, kept by every round of `poll` and every call of a client.
use canna.Prelude.{
  ℕ, ◌<◌, ◌^◌, ◌≡◌, refl, inl, inr, true, false, List, [], ◌∷◌, Option, none, some, arith,
  Option-cases,
}
use canna.Socket.Types.{
  invalid, connecting, max_socket, is, Socket, Server, Sys, Event, received, WriteResult,
  epoll_write, call,
}
use canna.Socket.Slots.{reserve_id, new_socket, force_close}
use canna.Socket.Send.{After, Side, high, send_buffer, send_list, send_rest}
use canna.Socket.Events.{accept_reserved, report_accept, report_connect, forward_message_tcp}
use canna.Socket.Reserve.{reserved, reserve_id_found, reserve_id_kept}
use canna.Socket.Tidy.{IsTidy, TidyAt}

report_connect-IsTidy :
    (sys : Sys) (s : Server) (k j : ℕ)
    → is (s.slots k).type connecting ≡ true
    → IsTidy j (s.slots j)
    → TidyAt j (report_connect sys s k)
unfolding report_connect force_close
report_connect-IsTidy sys s k j waits v = ground arith

pub forward_message_tcp-IsTidy :
    (sys : Sys) (s : Server) (k j : ℕ)
    → IsTidy j (s.slots j)
    → TidyAt j (forward_message_tcp sys s k)
unfolding forward_message_tcp force_close
forward_message_tcp-IsTidy sys s k j v = ground arith

-- `send_list` compares a socket's type with a protocol, so on a live socket it sends nothing.
pub send_list-live :
    (answers : List WriteResult) (s : Server) (k : ℕ) (l : Side)
    → is (s.slots k).type invalid ≡ false
    → send_list answers s k l ≡ some (s, some received)
unfolding send_list
send_list-live answers s k l live = rw live refl

-- With both lists empty `send_buffer` only asks epoll for no more writable events.
pub send_buffer-IsTidy :
    (answers answers' : List WriteResult) (s : Server) (k : ℕ)
    → is (s.slots k).type invalid ≡ false
    → IsTidy k (s.slots k)
    → send_buffer answers answers' s k ≡ some (call (epoll_write (s.slots k).fd k false) s, none)
unfolding send_buffer send_rest
send_buffer-IsTidy answers answers' s k live v =
    ground (arith, send_list-live answers s k high live)

-- The invariant: every slot is tidy, ids stay below 2 ^ 31, and events point into the slots.
abbrev pub IsInside : Event → Type 0
IsInside e = (k : ℕ) → e.slot ≡ some k → k < max_socket

abbrev pub Inside : List Event → Type 0
Inside [] = Unit
Inside (e ∷ rest) = IsInside e × Inside rest

pub record IsValid (s : Server) : Type 0 where
  pub tidy : (k : ℕ) → k < max_socket → IsTidy k (s.slots k)
  pub ids : s.alloc_id < 2 ^ 31
  pub events : Inside s.pending

-- A reserved slot is tidy.
reserved-IsTidy :
    (s : Server) (id j : ℕ) → IsTidy j (s.slots j) → IsTidy j ((reserved s id).slots j)
reserved-IsTidy s id j v = ground arith

pub reserve_id-IsValid : (s : Server) → IsValid s → IsValid (reserve_id s).0
reserve_id-IsValid s v = elim (Option-cases (reserve_id s).1) [
  | inl e ↦
      let (same, small) = reserve_id_kept s v.ids e in
      record { tidy = λ k p. rw same (v.tidy k p); ids = small; events = rw same v.events }
  | inr (id, e) ↦
      let (free, small, made) = reserve_id_found s id e in
      record {
        tidy = λ k p. rw made (reserved-IsTidy s id k (v.tidy k p));
        ids = rw made small;
        events = rw made v.events;
      }
]

module _ {R : Type 0} where
  -- The id counter and the events are left alone.
  abbrev pub Still : Server → Option (Server × R) → Type 0
  Still s = After (λ q. (q.0.pending ≡ s.pending) × (q.0.alloc_id ≡ s.alloc_id))

  abbrev pub ValidAfter : Option (Server × R) → Type 0
  ValidAfter = After (λ q. IsValid q.0)

  -- A run that leaves these alone keeps the invariant if it keeps each slot tidy.
  pub valid_after :
      (s : Server) (m : Option (Server × R))
      → IsValid s
      → Still s m
      → ((j : ℕ) → j < max_socket → After (λ q. IsTidy j (q.0.slots j)) m)
      → ValidAfter m
  valid_after s none v still tidy = tt
  valid_after s (some (t, r)) v still tidy = record {
    tidy = tidy;
    ids = rw still.1 v.ids;
    events = rw still.0 v.events;
  }

accept_reserved-IsValid :
    (sys : Sys) (sock : Socket) (fd : ℕ) (t : Server) (id : Option ℕ)
    → IsValid t
    → ValidAfter (accept_reserved sys sock fd t id)
unfolding accept_reserved new_socket
accept_reserved-IsValid sys sock fd t none v = record {
  tidy = v.tidy;
  ids = v.ids;
  events = v.events;
}
accept_reserved-IsValid sys sock fd t (some id) v =
    valid_after t (accept_reserved sys sock fd t (some id)) v (ground arith)
      (λ j p. accepted_slot j (v.tidy j p))
  where
    accepted_slot :
        (j : ℕ)
        → IsTidy j (t.slots j)
        → After (λ q. IsTidy j (q.0.slots j)) (accept_reserved sys sock fd t (some id))
    accepted_slot j w = ground arith

pub report_accept-IsValid :
    (sys : Sys) (s : Server) (k : ℕ) → IsValid s → ValidAfter (report_accept sys s k)
unfolding report_accept accept_reserved
report_accept-IsValid sys s k v = elim (Option-cases sys.accepts) [
  | inl e ↦ rw e v
  | inr (fd, e) ↦ rw e (
      accept_reserved-IsValid sys (s.slots k) fd (reserve_id s).0 (reserve_id s).1
        (reserve_id-IsValid s v))
]

pub report_connect-IsValid :
    (sys : Sys) (s : Server) (k : ℕ)
    → is (s.slots k).type connecting ≡ true
    → IsValid s
    → ValidAfter (report_connect sys s k)
report_connect-IsValid sys s k waits v =
    valid_after s (report_connect sys s k) v (unfold report_connect force_close in ground arith)
      (λ j p. report_connect-IsTidy sys s k j waits (v.tidy j p))
