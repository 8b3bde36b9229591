-- ===== src/Socket/Listen/Closed.antt =====
-- gateserver/socket_server.cpp: the descriptors and the lists of addresses of the set-up code.
use canna.Prelude.{
  ltb, ◌≤◌, ℕ, zero, suc, ◌⊎◌, ◌+◌, ◌≡◌, refl, ap, inl, inr, Bool, true, false, List, [], ◌∷◌, ◌++◌,
  Option, none, some, if◌then◌else◌, arith, Bool-cases, Option-cases, ◌==◌,
}
use canna.Socket.Types.{
  Socket, Server, listening, SysCall, close_fd, invalid, is, hash_id, max_socket,
}
use canna.Socket.Slots.{next_id, reserve_loop, reserve_id}
use canna.Socket.Api.{server_listen, initialize}
use canna.Socket.Listen.{
  fd_setsize, Begun, gives_up, aborts, begins, NetCall, free_addresses, make_socket,
  close_descriptor, new_epoll, new_pipe, Net, Setup, bind_socket, bind_resolved, do_bind,
  listen_bound, do_listen, server_listen_at, initialize_pipe, initialize_epoll, try_initialize,
  release_calls,
}

-- The descriptors that the calls opened and closed, and the address lists that are not freed.
abbrev pub opened_by : NetCall → List ℕ
opened_by (make_socket family socktype (some fd)) = fd ∷ []
opened_by (new_epoll (some fd)) = fd ∷ []
opened_by (new_pipe (some (r, w))) = r ∷ w ∷ []
opened_by c = []

abbrev pub closed_by : NetCall → List ℕ
closed_by (close_descriptor fd) = fd ∷ []
closed_by c = []

abbrev pub opens : List NetCall → List ℕ
opens [] = []
opens (c ∷ calls) = opened_by c ++ opens calls

abbrev pub closes : List NetCall → List ℕ
closes [] = []
closes (c ∷ calls) = closed_by c ++ closes calls

abbrev pub frees : List NetCall → ℕ
frees [] = 0
frees (free_addresses ∷ calls) = 1 + frees calls
frees (c ∷ calls) = frees calls

abbrev pub the_list : {A : Type 0} → Option A → List A
the_list none = []
the_list (some x) = x ∷ []

abbrev pub the_count : {A : Type 0} → Option A → ℕ
the_count none = 0
the_count (some x) = 1

-- What calls leave behind: just this descriptor, and no address list that they got.
abbrev pub Tidy : Net → Option ℕ → List NetCall → Type 0
Tidy net fd calls =
    (opens calls ≡ closes calls ++ the_list fd) × (frees calls ≡ the_count net.resolved)

abbrev Listened : Net → Option (List ℕ) → ℕ → ℕ → Type 0
Listened net host port backlog =
    (fd : Option ℕ) × (calls : List NetCall) × (do_listen net host port backlog ≡ some (fd, calls))
    × Tidy net fd calls

abbrev answers : Option (ℕ × ℕ) → Option ℕ → Bool → Bool → Bool → Net
answers resolved made reuses binds listens = record {
  resolved = resolved;
  made = made;
  reuses = reuses;
  binds = binds;
  listens = listens;
}

listened :
    (resolved : Option (ℕ × ℕ)) (made : Option ℕ) (reuses binds listens : Bool)
    (host : Option (List ℕ)) (port backlog : ℕ)
    → Listened (answers resolved made reuses binds listens) host port backlog
unfolding do_listen do_bind bind_resolved bind_socket listen_bound
listened none made a b c host port backlog = (_, _, refl, (refl, refl))
listened (some r) none a b c host port backlog = (_, _, refl, (refl, refl))
listened (some r) (some fd) false b c host port backlog = (_, _, refl, (refl, refl))
listened (some r) (some fd) true false c host port backlog = (_, _, refl, (refl, refl))
listened (some r) (some fd) true true false host port backlog = (_, _, refl, (refl, refl))
listened (some r) (some fd) true true true host port backlog = (_, _, refl, (refl, refl))

-- `do_listen` on every path: it returns, and of the descriptors that it opens all but the one that
-- it returns are closed again, and every list of addresses that it got is freed, once.
pub do_listen-Tidy :
    (net : Net) (host : Option (List ℕ)) (port backlog : ℕ)
    → (fd : Option ℕ) × (calls : List NetCall) × (do_listen net host port backlog
        ≡ some (fd, calls))
      × Tidy net fd calls
do_listen-Tidy net host port backlog =
    listened net.resolved net.made net.reuses net.binds net.listens host port backlog

-- `reserve_id` sends nothing and calls nothing.
abbrev Quiet : Server → Server → Type 0
Quiet s t = (t.pipe ≡ s.pipe) × (t.calls ≡ s.calls)

reserve_loop-Quiet : (n : ℕ) (s : Server) → Quiet s (reserve_loop n s).0
unfolding reserve_loop
reserve_loop-Quiet zero s = (refl, refl)
reserve_loop-Quiet (suc n) s =
    let s' : Server = record s { alloc_id = next_id s.alloc_id } in
    elim (Bool-cases (is (s.slots (hash_id (next_id s.alloc_id))).type invalid)) [
      | inl e ↦ rw e (refl, refl)
      | inr e ↦ rw e (reserve_loop-Quiet n s')
    ]

abbrev pub shut_by : List SysCall → List ℕ
shut_by [] = []
shut_by (close_fd fd ∷ calls) = fd ∷ shut_by calls
shut_by (c ∷ calls) = shut_by calls

-- How `server_listen` ends: -1, with every descriptor that was opened closed, or an id, with the
-- one descriptor that is still open in the request that was sent.
abbrev pub Handed : Server → ℕ → Server → Option ℕ → List NetCall → Type 0
Handed s opaque t id calls =
    ((id ≡ none)
      × (t.pipe ≡ s.pipe)
      × ((logs : List SysCall) × (t.calls ≡ logs ++ s.calls)
          × (opens calls ≡ closes calls ++ shut_by logs)))
    ⊎ ((n : ℕ) × (fd : ℕ) × (id ≡ some n)
        × (t.pipe ≡ s.pipe ++ listening n fd opaque ∷ [])
        × (t.calls ≡ s.calls)
        × (opens calls ≡ closes calls ++ fd ∷ []))

server_listen-Handed :
    (fd : Option ℕ) (calls : List NetCall) (opaque : ℕ) (s : Server)
    → opens calls ≡ closes calls ++ the_list fd
    → Handed s opaque (server_listen fd opaque s).0 (server_listen fd opaque s).1 calls
unfolding server_listen
server_listen-Handed none calls opaque s h = inl (refl, refl, ([], refl, h))
server_listen-Handed (some fd) calls opaque s h =
    let (pipe, made) : Quiet s (reserve_id s).0 =
      unfold reserve_id in reserve_loop-Quiet max_socket s in
    elim (Option-cases (reserve_id s).1) [
      | inl e ↦ rw e (inl (refl, pipe, (close_fd fd ∷ [], ap (λ l. close_fd fd ∷ l) made, h)))
      | inr (n, e) ↦
          rw e (inr (n, fd, refl, ap (λ l. l ++ listening n fd opaque ∷ []) pipe, made, h))
    ]

-- `server_listen` on every path, whatever the system answers: it returns; where it returns -1 no
-- request was sent and every descriptor that was opened is closed; where it returns an id, one
-- request was sent, with that id and the one descriptor that is open.
pub server_listen_at-Handed :
    (net : Net) (host : Option (List ℕ)) (port backlog opaque : ℕ) (s : Server)
    → (t : Server) × (id : Option ℕ) × (calls : List NetCall) × (server_listen_at net host port
          backlog opaque s
        ≡ some (t, id, calls))
      × Handed s opaque t id calls
unfolding server_listen_at
server_listen_at-Handed net host port backlog opaque s =
    let (fd, calls, made, (balance, freed)) = do_listen-Tidy net host port backlog in
    (
      (server_listen fd opaque s).0,
      (server_listen fd opaque s).1,
      calls,
      rw (made, server_listen_at) refl,
      server_listen-Handed fd calls opaque s balance,
    )

-- How often a descriptor stands in a list.
abbrev pub how_many : ℕ → List ℕ → ℕ
how_many d [] = 0
how_many d (fd ∷ fds) = (if d == fd then 1 else 0) + how_many d fds

-- What `initialize` leaves open: nothing where it gives up, and else what the end of `release`
-- closes; its assertion fails only for a receiving end that no `fd_set` can hold.
abbrev pub SetUp : Setup → (ℕ → Socket) → Begun × List NetCall → Type 0
SetUp setup memory (begun, calls) =
    ((begun ≡ gives_up) × ((d : ℕ) → how_many d (opens calls) ≡ how_many d (closes calls)))
    ⊎ (((begun ≡ aborts) × ((ends : ℕ × ℕ) × (setup.pipe ≡ some ends) × (fd_setsize ≤ ends.0)))
        ⊎ ((epoll : ℕ) × (ends : ℕ × ℕ) × (begun ≡ begins (initialize memory))
            × ((d : ℕ)
                → how_many d (opens calls)
                  ≡ how_many d (closes (calls ++ release_calls epoll ends)))))

set_up :
    (epoll : Option ℕ) (pipe : Option (ℕ × ℕ)) (watches : Bool) (memory : ℕ → Socket)
    → let setup : Setup = record { epoll = epoll; pipe = pipe; watches = watches } in
      SetUp setup memory (try_initialize setup memory)
unfolding try_initialize initialize_epoll initialize_pipe
set_up none pipe watches memory = inl (refl, λ d. refl)
set_up (some e) none watches memory = inl (refl, λ d. refl)
set_up (some e) (some (r, w)) false memory = inl (refl, λ d. omega arith)
set_up (some e) (some (r, w)) true memory = elim (Bool-cases (ltb r fd_setsize)) [
  | inl fits ↦ rw fits (inr (inr (e, (r, w), refl, λ d. omega arith)))
  | inr large ↦ rw large (inr (inl (refl, ((r, w), refl, ground (arith, large)))))
]

-- `initialize` on every path: where any of its calls fails, every descriptor that it opened is
-- closed again, as often as it was opened; where its assertion fails, the receiving end of the pipe
-- is 1024 or more; else the server is set up, and the descriptors that were opened are those that
-- the end of `release` closes.
pub try_initialize-SetUp :
    (setup : Setup) (memory : ℕ → Socket) → SetUp setup memory (try_initialize setup memory)
try_initialize-SetUp setup memory = set_up setup.epoll setup.pipe setup.watches memory
