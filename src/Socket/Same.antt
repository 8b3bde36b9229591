-- ===== src/Socket/Same.antt =====
-- What a handler leaves alone: `Same j` relates two servers that agree on the slot `j`, the events,
-- the pipe and the id counter. Sending on one socket leaves every other slot alone.
use canna.Prelude.{
  ℕ, ◌≡◌, ◌≢◌, inl, inr, false, List, Option, none, some, arith, ◌+◌, ◌-◌, ◌%◌, ◌^◌, Bool-cases,
  if◌then◌else◌,
}
use canna.Socket.Types.{epoll_write, Server, Report, call, WriteResult, closed, wire, put}
use canna.Socket.Slots.{force_close}
use canna.Socket.Send.{
  ◌>>=◌, After, After-bind, drain, side, set_side, Side, high, low, is_closed, list_uncomplete,
  send_buffer, send_list, send_list_tcp, send_rest, raise_uncomplete,
}

-- From `s`, a run that did not abort has changed neither what is listed nor the slot `j`.
pub record Same (j : ℕ) (s t : Server) : Type 0 where
  pub slot : t.slots j ≡ s.slots j
  pub pending : t.pending ≡ s.pending
  pub pipe : t.pipe ≡ s.pipe
  pub alloc_id : t.alloc_id ≡ s.alloc_id
  pub checkctrl : t.checkctrl ≡ s.checkctrl

abbrev pub SameAt : ℕ → Server → Option (Server × Option Report) → Type 0
SameAt j s = After (λ r. Same j s r.0)

pub Same-refl : (j : ℕ) (s : Server) → Same j s s
Same-refl j s = ground arith

pub Same-trans : (j : ℕ) (s t u : Server) → Same j s t → Same j t u → Same j s u
Same-trans j s t u a b = ground arith

pub force_close-Same : (s : Server) (k j : ℕ) → j ≢ k → After (Same j s) (force_close s k)
unfolding force_close
force_close-Same s k j ne = ground arith

pub Same-After :
    (j : ℕ) (s t : Server) (m : Option (Server × Option Report))
    → Same j s t
    → SameAt j t m
    → SameAt j s m
Same-After j s t none a h = tt
Same-After j s t (some (u, r)) a h = Same-trans j s t u a h

-- A close that is reported.
pub reporting-Same :
    (s : Server) (k : ℕ) (r : Option Report) (j : ℕ)
    → j ≢ k
    → SameAt j s (force_close s k >>= λ t. some (t, r))
reporting-Same s k r j ne =
    After-bind (Same j s) (λ q. Same j s q.0) (force_close s k) (λ t. some (t, r))
      (force_close-Same s k j ne) (λ t h. h)

send_list_tcp-Same :
    (answers : List WriteResult) (s : Server) (k : ℕ) (l : Side) (j : ℕ)
    → j ≢ k
    → SameAt j s (send_list_tcp answers s k l)
unfolding send_list_tcp
send_list_tcp-Same answers s k l j ne =
    let d = drain answers (side l (s.slots k)) in
    let t = put (call (wire (s.slots k).fd d.out) s) k (record (set_side l d.left (s.slots k)) {
      wb_size = ((s.slots k).wb_size + 2 ^ 64 - d.total) % 2 ^ 64;
    }) in
    elim (Bool-cases d.lost) [
      | inl gone ↦ rw gone (
          Same-After j s t (force_close t k >>= λ u. some (u, some closed)) (ground arith)
            (reporting-Same t k (some closed) j ne))
      | inr kept ↦ rw kept (ground arith)
    ]

send_list-Same :
    (answers : List WriteResult) (s : Server) (k : ℕ) (l : Side) (j : ℕ)
    → j ≢ k
    → SameAt j s (send_list answers s k l)
unfolding send_list
send_list-Same answers s k l j ne =
    ground (arith, send_list_tcp-Same answers s k l j, Same-refl j s)

raise_uncomplete-Same : (s : Server) (k j : ℕ) → j ≢ k → After (Same j s) (raise_uncomplete s k)
unfolding raise_uncomplete
raise_uncomplete-Same s k j ne = ground arith

-- The part of `send_rest` behind the low list.
low_sent-Same :
    (j k : ℕ) (s t : Server) (r : Option Report)
    → j ≢ k
    → Same j s t
    → SameAt j s (
        if is_closed r
        then some (t, some closed)
        else if list_uncomplete (t.slots k).low
        then (raise_uncomplete t k >>= λ u. some (u, none))
        else some (t, none))
low_sent-Same j k s t r ne a =
    Same-After j s t
      (if is_closed r
        then some (t, some closed)
        else if list_uncomplete (t.slots k).low
        then (raise_uncomplete t k >>= λ u. some (u, none))
        else some (t, none))
      a
      (ground (
        arith,
        Same-refl j t,
        After-bind (Same j t) (λ (q : Server × Option Report). Same j t q.0) (raise_uncomplete t k)
            (λ u. some (u, none)) (raise_uncomplete-Same t k j ne) (λ u h. h),
      ))

send_rest-Same :
    (answers : List WriteResult) (s : Server) (k j : ℕ) → j ≢ k → SameAt j s (send_rest answers s k)
unfolding send_rest
send_rest-Same answers s k j ne = ground (
  arith,
  Same-refl j s,
  Same-After j s u (force_close u k >>= λ t. some (t, some closed)) (ground arith)
      (reporting-Same u k (some closed) j ne),
  After-bind (λ (q : Server × Option Report). Same j s q.0)
      (λ (q : Server × Option Report). Same j s q.0) (send_list answers s k low)
      (λ (t, r).
        if is_closed r
        then some (t, some closed)
        else if list_uncomplete (t.slots k).low
        then (raise_uncomplete t k >>= λ u. some (u, none))
        else some (t, none))
      (send_list-Same answers s k low j ne) (λ q h. low_sent-Same j k s q.0 q.1 ne h),
)
  where
    u : Server
    u = call (epoll_write (s.slots k).fd k false) s

pub send_buffer-Same :
    (answers answers' : List WriteResult) (s : Server) (k j : ℕ)
    → j ≢ k
    → SameAt j s (send_buffer answers answers' s k)
unfolding send_buffer
send_buffer-Same answers answers' s k j ne = ground (
  arith,
  After-bind (λ (q : Server × Option Report). Same j s q.0)
      (λ (q : Server × Option Report). Same j s q.0) (send_list answers s k high)
      (λ (t, r). if is_closed r then some (t, some closed) else send_rest answers' t k)
      (send_list-Same answers s k high j ne) (λ q h. high_sent q.0 q.1 h),
)
  where
    high_sent :
        (t : Server) (r : Option Report)
        → Same j s t
        → SameAt j s (if is_closed r then some (t, some closed) else send_rest answers' t k)
    high_sent t r h =
        Same-After j s t (if is_closed r then some (t, some closed) else send_rest answers' t k) h
          (ground (arith, Same-refl j t, send_rest-Same answers' t k j ne))
