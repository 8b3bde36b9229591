-- ===== src/Socket/Slots.antt =====
-- gateserver/socket_server.cpp: reserve_id, new_socket and force_close. `none` is a failed assertion.
use canna.Prelude.{
  ℕ, zero, suc, ◌+◌, ◌%◌, ◌^◌, Bool, true, false, [], Option, none, some, if◌then◌else◌, ltb, ◌||◌,
}
use canna.Socket.Types.{
  invalid, reserve, plisten, paccept, bound, is, hash_id, minus_one, max_socket, Server, epoll_add,
  epoll_del, close_fd, null, put, set_type, call, tell,
}

-- `__sync_add_and_fetch(&alloc_id, 1)`, masked by 0x7fffffff where the sum is negative.
abbrev pub next_id : ℕ → ℕ
next_id a = if ltb ((a + 1) % 2 ^ 32) (2 ^ 31) then (a + 1) % 2 ^ 32 else (a + 1) % 2 ^ 32 % 2 ^ 31

-- The loop of `reserve_id` with the rounds left. On one thread the compare-and-swap succeeds.
unfoldable pub reserve_loop : ℕ → Server → Server × Option ℕ
reserve_loop zero s = (s, none)
reserve_loop (suc n) s =
    let id : ℕ = next_id s.alloc_id in
    let s' : Server = record s { alloc_id = id } in
    let rest = reserve_loop n s' in
    if is (s.slots (hash_id id)).type invalid
    then (
      put s' (hash_id id)
          (record (s.slots (hash_id id)) { type = reserve; id = id; fd = minus_one }),
      some id,
    )
    else rest

-- `reserve_id`; `none` is the result -1.
unfoldable pub reserve_id : Server → Server × Option ℕ
reserve_id s = reserve_loop max_socket s

-- `new_socket`: whether a socket, and no null pointer, is returned. `add` asks for `event_fd.add`,
-- and `add_fails` is what that answers.
unfoldable pub new_socket : Server → ℕ → ℕ → ℕ → ℕ → Bool → Bool → Option (Server × Bool)
new_socket s id fd protocol opaque add add_fails =
    if is (s.slots (hash_id id)).type reserve
    then (if add
        then (if add_fails
            then some (set_type (call (epoll_add fd (hash_id id)) s) (hash_id id) invalid, false)
            else some (fill (call (epoll_add fd (hash_id id)) s), true))
        else some (fill s, true))
    else none
  where
    fill : Server → Server
    fill t =
        put t (hash_id id)
          (record (t.slots (hash_id id)) { id = id; fd = fd; protocol = protocol; opaque = opaque })

-- The epoll registration of the slot `k` is dropped, unless it never had one.
unfoldable pub unregister : Server → ℕ → Server
unregister s k =
    if is (s.slots k).type paccept || is (s.slots k).type plisten
    then s
    else call (epoll_del (s.slots k).fd) s

-- The descriptor is closed, unless the client bound it.
unfoldable pub close_own : Server → ℕ → Server
close_own s k = if is (s.slots k).type bound then s else call (close_fd (s.slots k).fd) s

-- `force_close` on the socket in the slot `k`.
unfoldable pub force_close : Server → ℕ → Option Server
unfolding unregister close_own
force_close s k =
    let t = tell s (s.slots k).id (s.slots k).opaque 0 null in
    if is (s.slots k).type invalid
    then some t
    else if is (s.slots k).type reserve
    then none
    else some (
        put (close_own (unregister t k) k) k
          (record (s.slots k) { high = []; low = []; type = invalid }))
