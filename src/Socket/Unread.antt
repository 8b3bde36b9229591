-- ===== src/Socket/Unread.antt =====
-- gateserver/socket_server.cpp never sets the size of a socket's first read. Where it starts as 0
-- every read asks for 0 bytes, and no data reaches a client: the handlers, one by one.
pub mod Rounds
pub mod Forever
mod Tests
use canna.Prelude.{
  ℕ, ◌<◌, ◌^◌, ◌≡◌, ◌≢◌, refl, sym, ap, ◌∙◌, inl, inr, Bool, true, false, List, [], ◌∷◌, Option,
  none, some, arith, Option-cases, if◌then◌else◌, Bool-cases,
}
use canna.Socket.Types.{
  invalid, connecting, hash_id, is, Socket, Server, Sys, Report, received, Request, start, bind,
  listening, close, connect, exit, send, setopt, ignored, Attempt, Payload, ReadResult, got,
  read_eintr, read_eagain, read_error, tell, null,
}
use canna.Socket.Slots.{reserve_id, new_socket, force_close}
use canna.Socket.Send.{◌>>=◌, After, send_buffer}
use canna.Socket.Commands.{
  start_socket, bind_socket, listen_socket, close_socket, close_flushed, open_socket, open_resolved,
  open_connected, try_connect, send_socket, setopt_socket, ctrl_cmd,
}
use canna.Socket.Events.{accept_reserved, report_accept, report_connect, forward_message_tcp}
use canna.Socket.Tidy.{IsTidy, try_connect-slots}
use canna.Socket.Reserve.{reserved, reserve_id_found, reserve_id_kept}

-- The next read on the socket in the slot `j` asks for no byte.
abbrev pub IsUnread : ℕ → Server → Type 0
IsUnread j s = (s.slots j).size ≡ 0

-- A run leaves the slot `j` so, and does not report SOCKET_DATA.
abbrev pub QuietAt : ℕ → Option (Server × Option Report) → Type 0
QuietAt j = After (λ q. IsUnread j q.0 × (q.1 ≢ some received))

-- What `read` does where it is asked for 0 bytes: it stores none.
abbrev pub IsHonest : Sys → Type 0
IsHonest sys = (bytes : List ℕ) → sys.reads 0 ≡ got bytes → bytes ≡ []

module _ (sys : Sys) (s : Server) (j : ℕ) (unread : IsUnread j s) where
  start_socket-QuietAt : (id opaque : ℕ) → QuietAt j (start_socket sys s id opaque)
  unfolding start_socket
  start_socket-QuietAt id opaque = ground arith

  bind_socket-QuietAt : (id fd opaque : ℕ) → QuietAt j (bind_socket sys s id fd opaque)
  unfolding bind_socket new_socket
  bind_socket-QuietAt id fd opaque = ground arith

  listen_socket-QuietAt : (id fd opaque : ℕ) → QuietAt j (listen_socket s id fd opaque)
  unfolding listen_socket new_socket
  listen_socket-QuietAt id fd opaque = ground arith

  close_socket-QuietAt :
      (id opaque : ℕ)
      → IsTidy (hash_id id) (s.slots (hash_id id))
      → QuietAt j (close_socket sys s id opaque)
  unfolding close_socket close_flushed force_close
  close_socket-QuietAt id opaque tidy = ground arith

  send_socket-QuietAt : (id : ℕ) (buffer : List ℕ) → QuietAt j (send_socket sys s id buffer)
  unfolding send_socket force_close
  send_socket-QuietAt id buffer = ground arith

  open_connected-QuietAt :
      (id opaque fd : ℕ) (done : Bool) (printed : Payload)
      → QuietAt j (open_connected sys s id opaque fd done printed)
  unfolding open_connected new_socket
  open_connected-QuietAt id opaque fd done printed = ground arith

  pub report_connect-QuietAt : (k : ℕ) → QuietAt j (report_connect sys s k)
  unfolding report_connect force_close
  report_connect-QuietAt k = ground arith

  -- The descriptor is not closed, and nothing is forwarded.
  pub forward_message_tcp-QuietAt :
      (k : ℕ) → IsHonest sys → IsUnread k s → QuietAt j (forward_message_tcp sys s k)
  unfolding forward_message_tcp force_close
  forward_message_tcp-QuietAt k honest at_k =
      nothing_read (sys.reads (s.slots k).size)
        (λ bytes e f. honest bytes (sym (ap sys.reads at_k) ∙ e ∙ f)) refl
    where
      nothing_read :
          (r : ReadResult)
          → ((bytes : List ℕ) → sys.reads (s.slots k).size ≡ r → r ≡ got bytes → bytes ≡ [])
          → sys.reads (s.slots k).size ≡ r
          → QuietAt j (forward_message_tcp sys s k)
      nothing_read (got bytes) h e = let none_read = e ∙ ap got (h bytes e refl) in ground arith
      nothing_read r h e = rw (e, forward_message_tcp) (ground arith)

open_resolved-QuietAt :
    (found : Option (List Attempt)) (sys : Sys) (s : Server) (id opaque j : ℕ)
    → IsUnread j s
    → QuietAt j (open_resolved found sys s id opaque)
unfolding open_resolved
open_resolved-QuietAt none sys s id opaque j v = ground arith
open_resolved-QuietAt (some []) sys s id opaque j v = ground arith
open_resolved-QuietAt (some (a ∷ rest)) sys s id opaque j v =
    elim (Option-cases (try_connect (a ∷ rest) s)) [
      | inl e ↦ rw e tt
      | inr ((u, fd, done, printed), e) ↦ rw e (
          open_connected-QuietAt sys u j (rw (try_connect-slots (a ∷ rest) s u fd done printed e) v)
            id opaque fd done printed)
    ]

pub ctrl_cmd-QuietAt :
    (sys : Sys) (s : Server) (r : Request) (j : ℕ)
    → ((id opaque : ℕ) → r ≡ close id opaque → IsTidy (hash_id id) (s.slots (hash_id id)))
    → IsUnread j s
    → QuietAt j (ctrl_cmd sys s r)
unfolding ctrl_cmd open_socket setopt_socket
ctrl_cmd-QuietAt sys s (start id opaque) j tidy v = start_socket-QuietAt sys s j v id opaque
ctrl_cmd-QuietAt sys s (bind id fd opaque) j tidy v = bind_socket-QuietAt sys s j v id fd opaque
ctrl_cmd-QuietAt sys s (listening id fd opaque) j tidy v =
    listen_socket-QuietAt sys s j v id fd opaque
ctrl_cmd-QuietAt sys s (close id opaque) j tidy v =
    close_socket-QuietAt sys s j v id opaque (tidy id opaque refl)
ctrl_cmd-QuietAt sys s (connect id port opaque host) j tidy v =
    open_resolved-QuietAt sys.resolves sys (tell s id opaque 0 null) id opaque j v
ctrl_cmd-QuietAt sys s exit j tidy v = (v, λ e. cc)
ctrl_cmd-QuietAt sys s (send id buffer) j tidy v = send_socket-QuietAt sys s j v id buffer
ctrl_cmd-QuietAt sys s (setopt id what value) j tidy v = ground arith
ctrl_cmd-QuietAt sys s (ignored byte) j tidy v = (v, λ e. cc)

-- An accepted client's slot keeps its size too.
pub reserve_id-IsUnread :
    (s : Server) (j : ℕ) → s.alloc_id < 2 ^ 31 → IsUnread j s → IsUnread j (reserve_id s).0
reserve_id-IsUnread s j small v = elim (Option-cases (reserve_id s).1) [
  | inl e ↦ let (same, _) = reserve_id_kept s small e in rw same v
  | inr (id, e) ↦ let (free, below, made) = reserve_id_found s id e in rw made (ground arith)
]

pub report_accept-IsUnread :
    (sys : Sys) (s : Server) (k j : ℕ)
    → s.alloc_id < 2 ^ 31
    → IsUnread j s
    → After (λ q. IsUnread j q.0) (report_accept sys s k)
unfolding report_accept accept_reserved new_socket
report_accept-IsUnread sys s k j small v = elim (Option-cases sys.accepts) [
  | inl e ↦ rw e v
  | inr (fd, e) ↦
      rw e (accepted (reserve_id s).0 (reserve_id s).1 fd (reserve_id-IsUnread s j small v))
]
  where
    accepted :
        (t : Server) (id : Option ℕ) (fd : ℕ)
        → IsUnread j t
        → After (λ q. IsUnread j q.0) (accept_reserved sys (s.slots k) fd t id)
    accepted t none fd w = w
    accepted t (some id) fd w = ground arith
