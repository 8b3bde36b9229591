-- ===== src/Socket/Epoll/Tests.antt =====
-- socket_poll over a small epoll.
use canna.Prelude.{
  ℕ, ◌≡◌, refl, Bool, true, false, List, [], ◌∷◌, Option, none, some, if◌then◌else◌, ◌==◌, ◌&&◌,
}
use canna.Socket.Epoll.{
  EpollCtl, PollCall, add, write, poll_call, poll_calls, asked_events, Ready, of_ready, wait,
  nonblocking,
}
use canna.Socket.Epoll.Interest.{
  put_there, IsEpoll, nothing_watched, after_calls, IsReported, of_ready-watched,
}

-- The interest list as a function.
abbrev Interests : Type 0
Interests = ℕ → Option (ℕ × Option ℕ)

abbrev interests_at : Interests → ℕ → Option (ℕ × Option ℕ)
interests_at k d = k d

abbrev try_add : Option (ℕ × Option ℕ) → ℕ → ℕ × Option ℕ → Interests → Bool × Interests
try_add (some old) fd new k = (true, k)
try_add none fd new k = (false, λ d. if d == fd then some new else k d)

abbrev small_epoll : EpollCtl Interests
small_epoll = record {
  ctl_add = λ fd events ud k. try_add (k fd) fd (events, ud) k;
  ctl_mod = λ fd events ud k d. if d == fd then put_there (k fd) (events, ud) else k d;
  ctl_del = λ fd k d. if d == fd then none else k d;
}

try_add_lem :
    (o : Option (ℕ × Option ℕ)) (fd : ℕ) (new : ℕ × Option ℕ) (k : Interests) (d : ℕ)
    → (try_add o fd new k).1 d
      ≡ (if (try_add o fd new k).0 then k d else if d == fd then some new else k d)
try_add_lem none fd new k d = refl
try_add_lem (some old) fd new k d = refl

small_epoll-IsEpoll : IsEpoll Interests small_epoll interests_at
small_epoll-IsEpoll = record {
  ctl_add_lem = λ fd events ud k d. try_add_lem (k fd) fd (events, ud) k d;
  ctl_mod_lem = λ fd events ud k d. refl;
  ctl_del_lem = λ fd k d. refl;
}

abbrev empty : Interests
empty d = none

-- The slot 1 watches the descriptor 7, then its writing too; the second `add` fails.
abbrev calls : List PollCall
calls = add 7 (some 1) ∷ write 7 (some 1) true ∷ add 7 (some 2) ∷ []

results_test : (poll_calls small_epoll calls empty).0 ≡ 0 ∷ 0 ∷ 1 ∷ []
unfolding poll_calls poll_call asked_events
results_test = refl

abbrev writable : Ready
writable = record { flag = 5; ptr = some 1 }

-- An error on the descriptor, EPOLLERR and EPOLLHUP, gives an event that says neither.
error_event :
    of_ready (record { flag = 24; ptr = some 1 })
    ≡ record { slot = some 1; read = false; write = false }
unfolding of_ready
error_event = refl

wait_test :
    wait (some (writable ∷ [])) 64
    ≡ (some 1, record { slot = some 1; read = true; write = true } ∷ [])
unfolding wait of_ready
wait_test = refl

nonblocking_test : nonblocking (some 2) ≡ some 2050
unfolding nonblocking
nonblocking_test = refl

writable-IsReported :
    IsReported Interests small_epoll interests_at small_epoll-IsEpoll
      (poll_calls small_epoll calls empty).1
      7
      writable
unfolding poll_calls poll_call asked_events
writable-IsReported = record { events = 5; stored = refl; asked = refl }

of_ready-watched_example :
    (enable : Bool) × (after_calls calls (poll_calls small_epoll calls empty).0 nothing_watched 7
      ≡ some ((of_ready writable).slot, enable))
    × ((of_ready writable).write ≡ ((of_ready writable).write && enable))
of_ready-watched_example =
    of_ready-watched Interests small_epoll interests_at small_epoll-IsEpoll calls empty 7 writable
      (λ d. refl) writable-IsReported
