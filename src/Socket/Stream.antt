-- ===== src/Socket/Stream.antt =====
-- What the requests to send on a connected socket put on the wire.
mod Tests
use canna.Prelude.{
  ℕ, ◌+◌, ◌≡◌, refl, sym, subst, ap, ◌∙◌, inl, inr, Bool, true, false, List, [], ◌∷◌, ◌++◌, Option,
  none, some, arith, length, take, if◌then◌else◌, ◌==◌, ==_iff, append_assoc, append-nil,
  Option-cases, Bool-cases,
}
use canna.Socket.Types.{
  connected, is, hash_id, protocol_tcp, Server, Sys, Event, Report, Request, send, SysCall, wire,
  epoll_write, call, WriteResult, sent, write_eintr, write_eagain, write_error,
}
use canna.Socket.Send.{◌>>=◌, After}
use canna.Socket.Commands.{ctrl_cmd, send_socket, send_now, taken}
use canna.Socket.Poll.{finish}
use canna.Socket.Reach.{left_by}
use canna.Socket.Served.{run_rounds, handle_all, run_rounds-handle_all}

-- The bytes written to a descriptor, in order.
abbrev pub written_by : ℕ → SysCall → List ℕ
written_by fd (wire d bytes) = if d == fd then bytes else []
written_by fd c = []

abbrev pub stream : ℕ → List SysCall → List ℕ
stream fd [] = []
stream fd (c ∷ calls) = stream fd calls ++ written_by fd c

-- Connected, with nothing left to send.
pub record IsOnline (id fd : ℕ) (s : Server) : Type 0 where
  pub live : (s.slots (hash_id id)).type ≡ connected
  pub named : (s.slots (hash_id id)).id ≡ id
  pub tcp : (s.slots (hash_id id)).protocol ≡ protocol_tcp
  pub high_empty : (s.slots (hash_id id)).high ≡ []
  pub low_empty : (s.slots (hash_id id)).low ≡ []
  pub descriptor : (s.slots (hash_id id)).fd ≡ fd

-- A request to send a buffer, with the answers of its round.
pub record Sending : Type 0 where
  pub sys : Sys
  pub waited : List Event
  pub buffer : List ℕ

abbrev pub answers_of : List Sending → List (Sys × List Event)
answers_of [] = []
answers_of (w ∷ ws) = (w.sys, w.waited) ∷ answers_of ws

abbrev pub requests_of : ℕ → List Sending → List Request
requests_of id [] = []
requests_of id (w ∷ ws) = send id w.buffer ∷ requests_of id ws

-- No `write` loses the connection.
abbrev pub AllTaken : List Sending → Type 0
AllTaken [] = Unit
AllTaken (w ∷ ws) = ((n : ℕ) × (taken w.sys.write_now ≡ some n)) × AllTaken ws

abbrev first_of : Option ℕ → List ℕ → List ℕ
first_of none buffer = []
first_of (some n) buffer = take n buffer

-- What the writes take: the first so many bytes of each buffer.
abbrev pub taken_of : WriteResult → List ℕ → List ℕ
taken_of w buffer = first_of (taken w) buffer

abbrev pub taken_all : List Sending → List ℕ
taken_all [] = []
taken_all (w ∷ ws) = taken_of w.sys.write_now w.buffer ++ taken_all ws

take_all : (xs : List ℕ) → take (length xs) xs ≡ xs
take_all [] = refl
take_all (x ∷ xs) = ap (λ l. x ∷ l) (take_all xs)

whole_lem : (n : ℕ) (buffer : List ℕ) → (n == length buffer) ≡ true → take n buffer ≡ buffer
whole_lem n buffer e =
    let (to, from) = ==_iff n (length buffer) in ap (λ k. take k buffer) (to e) ∙ take_all buffer

send_socket-sent :
    (sys : Sys) (s : Server) (id fd n : ℕ) (buffer : List ℕ)
    → IsOnline id fd s
    → taken sys.write_now ≡ some n
    → (t : Server) × (send_socket sys s id buffer ≡ some (t, none))
      × (t.slots ≡ s.slots)
      × (t.pipe ≡ s.pipe)
      × (t.checkctrl ≡ s.checkctrl)
      × ((d : ℕ) → stream d t.calls ≡ stream d s.calls ++ (if fd == d then take n buffer else []))
unfolding send_socket send_now
send_socket-sent sys s id fd n buffer v took = elim (Bool-cases (n == length buffer)) [
  | inl whole ↦ (
    call (wire fd buffer) s,
    ground arith,
    refl,
    refl,
    refl,
    λ d. rw (whole_lem n buffer whole) refl,
  )
  | inr part ↦ (
    call (epoll_write fd (hash_id id) true) (call (wire fd (take n buffer)) s),
    ground arith,
    refl,
    refl,
    refl,
    λ d. append-nil (stream d s.calls ++ (if fd == d then take n buffer else [])),
  )
]

IsOnline-slots :
    (id fd : ℕ) (s t : Server) → t.slots ≡ s.slots → IsOnline id fd s → IsOnline id fd t
IsOnline-slots id fd s t e v = record {
  live = rw e v.live;
  named = rw e v.named;
  tcp = rw e v.tcp;
  high_empty = rw e v.high_empty;
  low_empty = rw e v.low_empty;
  descriptor = rw e v.descriptor;
}

-- Two writes that go to one descriptor or to none.
both_lem :
    (own : Bool) (before now later : List ℕ)
    → (before ++ (if own then now else [])) ++ (if own then later else [])
      ≡ before ++ (if own then now ++ later else [])
both_lem true before now later = append_assoc before now later
both_lem false before now later = append-nil (before ++ [])

none_lem : (own : Bool) (before : List ℕ) → before ≡ before ++ (if own then [] else [])
none_lem true before = sym (append-nil before)
none_lem false before = sym (append-nil before)

taken_of-some :
    (w : WriteResult) (n : ℕ) (buffer : List ℕ)
    → taken w ≡ some n
    → taken_of w buffer ≡ take n buffer
taken_of-some w n buffer took = ap (λ o. first_of o buffer) took

handle_all-stream :
    (id fd : ℕ) (ws : List Sending) (s : Server)
    → IsOnline id fd s
    → AllTaken ws
    → (t : Server) × (handle_all (answers_of ws) (requests_of id ws) s ≡ some t)
      × (t.slots ≡ s.slots)
      × ((d : ℕ) → stream d t.calls ≡ stream d s.calls ++ (if fd == d then taken_all ws else []))
unfolding handle_all ctrl_cmd finish
handle_all-stream id fd [] s v h = (s, refl, refl, λ d. none_lem (fd == d) (stream d s.calls))
handle_all-stream id fd (w ∷ ws) s v ((n, took), h) =
    let u : Server = record s { pipe = requests_of id ws } in
    let (t, made, slots, pipe, ctrl, flows) =
      send_socket-sent w.sys u id fd n w.buffer (IsOnline-slots id fd s u refl v) took in
    let (t', later, slots', flows') =
      handle_all-stream id fd ws t (IsOnline-slots id fd s t slots v) h in
    (
      t',
      rw made later,
      slots' ∙ slots,
      λ d.
          flows' d
          ∙ ap (λ l. l ++ (if fd == d then taken_all ws else [])) (flows d)
          ∙ both_lem (fd == d) (stream d s.calls) (take n w.buffer) (taken_all ws)
          ∙ ap (λ l. stream d s.calls ++ (if fd == d then l ++ taken_all ws else []))
              (sym (taken_of-some w.sys.write_now n w.buffer took)),
    )

length_lem : (id : ℕ) (ws : List Sending) → length (answers_of ws) ≡ length (requests_of id ws)
length_lem id [] = refl
length_lem id (w ∷ ws) = omega (arith, length_lem id ws)

-- The requests to send on a connected socket that has nothing queued: the rounds that handle them,
-- as many as the pipe holds, end, keep every slot, write to that socket's descriptor just the bytes
-- that the single writes took, request by request in the order of the pipe, and write nothing to
-- any other descriptor. So what a write leaves of its buffer is never sent.
pub run_rounds-stream :
    (id fd : ℕ) (ws : List Sending) (s : Server)
    → IsOnline id fd s
    → s.pipe ≡ requests_of id ws
    → s.checkctrl ≡ true
    → AllTaken ws
    → (t : Server) × (run_rounds (answers_of ws) s ≡ some t)
      × (t.slots ≡ s.slots)
      × (t.pipe ≡ [])
      × ((d : ℕ) → stream d t.calls ≡ stream d s.calls ++ (if fd == d then taken_all ws else []))
run_rounds-stream id fd ws s v asks checks h =
    let (t, made, slots, flows) = handle_all-stream id fd ws s v h in
    let (same, rest) =
      run_rounds-handle_all (answers_of ws) s checks (length_lem id ws ∙ sym (ap length asks)) in
    let ended = same ∙ ap (λ l. handle_all (answers_of ws) l s) asks ∙ made in
    (
      t,
      ended,
      slots,
      (subst (After (λ u. (u.pipe ≡ []) × (u.checkctrl ≡ true))) ended rest).0,
      flows,
    )
