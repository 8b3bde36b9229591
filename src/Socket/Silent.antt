-- ===== src/Socket/Silent.antt =====
-- The write buffers of a live socket are never written.
use canna.Prelude.{ℕ, ◌≡◌, false, List, [], ◌∷◌, arith}
use canna.Socket.Types.{invalid, is, Server, SysCall, wire, WriteResult}
use canna.Socket.Slots.{force_close}
use canna.Socket.Send.{After, high, low, send_buffer, send_rest, raise_uncomplete}
use canna.Socket.Invariant.{send_list-live}

-- The bytes that were put on the wire, the latest first.
abbrev pub wired : List SysCall → List (List ℕ)
wired [] = []
wired (wire fd bytes ∷ calls) = bytes ∷ wired calls
wired (c ∷ calls) = wired calls

-- Whatever its lists hold, `send_buffer` on a live socket puts no byte on the wire.
pub send_buffer_silent :
    (answers answers' : List WriteResult) (s : Server) (k : ℕ)
    → is (s.slots k).type invalid ≡ false
    → After (λ q. wired q.0.calls ≡ wired s.calls) (send_buffer answers answers' s k)
unfolding send_buffer send_rest raise_uncomplete force_close
send_buffer_silent answers answers' s k live =
    ground (arith, send_list-live answers s k high live, send_list-live answers' s k low live)
